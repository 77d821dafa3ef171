-- ===== src/Api/Users.antt =====
-- internal/api/handlers.go: the management of users.
use iot_api.Common.{
  String, ◌==◌, if◌then◌else◌, Result, ok, err, Error, not_found, weak_password, duplicate_user,
}
use iot_api.Http.{
  Response, status_ok, status_created, status_bad_request, status_not_found, status_conflict,
  status_internal_server_error,
}
use iot_api.Models.{User}
use iot_api.Store.{UserStore}
use iot_api.Auth.Service as Accounts
use iot_api.Api.{
  Body, user, users, Environment, Draw, World, Handler, Endpoint, write_json, write_error,
  write_no_content, with_accounts, decoded, on_store,
}

module _ {S P C : Type 0} (error_text : Error → String) where
  -- The switch on the error of `CreateUser`.
  abbrev pub refuse_creation : Error → World S P C → Response Body × World S P C
  refuse_creation weak_password w = write_error status_bad_request (error_text weak_password) w
  refuse_creation duplicate_user w = write_error status_conflict "username already exists" w
  refuse_creation e w = write_error status_internal_server_error "could not create user" w

  -- The switch on the error of `UpdateUser`.
  abbrev pub refuse_update : Error → World S P C → Response Body × World S P C
  refuse_update not_found w = write_error status_not_found "user not found" w
  refuse_update weak_password w = write_error status_bad_request (error_text weak_password) w
  refuse_update e w = write_error status_internal_server_error "could not update user" w

module _ {S P C : Type 0} where
  -- 404 where the user is not found, 500 with a message for any other error.
  abbrev pub refuse_missing : String → Error → World S P C → Response Body × World S P C
  refuse_missing message not_found w = write_error status_not_found "user not found" w
  refuse_missing message e w = write_error status_internal_server_error message w

module _ {S P C : Type 0} (us : UserStore S) (env : Environment) (h : Handler P C)
    (draw : Draw) where
  abbrev pub answer_creation : Result User × World S P C → Response Body × World S P C
  answer_creation result = elim result.0 [
    | ok u ↦ write_json status_created (user u) result.1
    | err e ↦ refuse_creation env.error_text e result.1
  ]

  unfoldable pub create_user : Endpoint S P C
  create_user id r c = with_accounts h.auth_svc (λ svc.
      decoded (env.create_user_request r.body) (λ req w.
        if req.username == ""
        then write_error status_bad_request "username is required" w
        else answer_creation (
            on_store
              (Accounts.create_user us env.bcrypt svc req.username req.password req.roles
                (record { salt = draw.salt; uuid = draw.uuid; now = draw.now }) w.state.store)
              w)))

  unfoldable pub list_users : Endpoint S P C
  list_users id r c = with_accounts h.auth_svc (λ svc w.
      write_json status_ok (users (Accounts.list_users us env.bcrypt svc w.state.store)) w)

  unfoldable pub get_user : Endpoint S P C
  get_user id r c = with_accounts h.auth_svc (λ svc w.
      elim (Accounts.get_user us env.bcrypt svc id w.state.store) [
        | ok u ↦ write_json status_ok (user u) w
        | err e ↦ refuse_missing "could not fetch user" e w
      ])

  abbrev pub answer_update : Result User × World S P C → Response Body × World S P C
  answer_update result = elim result.0 [
    | ok u ↦ write_json status_ok (user u) result.1
    | err e ↦ refuse_update env.error_text e result.1
  ]

  unfoldable pub update_user : Endpoint S P C
  update_user id r c = with_accounts h.auth_svc (λ svc.
      decoded (env.update_user_request r.body) (λ req w. answer_update (
        on_store
          (Accounts.update_user us env.bcrypt svc id req.roles req.password draw.salt w.state.store)
          w)))

  abbrev pub answer_deletion : Result (Unit {0}) × World S P C → Response Body × World S P C
  answer_deletion result = elim result.0 [
    | ok _ ↦ write_no_content result.1
    | err e ↦ refuse_missing "could not delete user" e result.1
  ]

  unfoldable pub delete_user : Endpoint S P C
  delete_user id r c = with_accounts h.auth_svc (λ svc w.
      answer_deletion (on_store (Accounts.delete_user us env.bcrypt svc id w.state.store) w))
