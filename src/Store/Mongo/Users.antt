-- ===== src/Store/Mongo/Users.antt =====
-- internal/store/mongo_users.go: the users and their refresh tokens.
use mathlib.Core.List.{map}
use iot_api.Common.{
  ℕ, String, Bool, not, ◌&&◌, ◌==◌, if◌then◌else◌, List, Result, ok, err, not_found, duplicate_user,
  Exec,
}
use iot_api.GoTime.{Time, is_zero, after}
use iot_api.Models.{User, RefreshToken}
use iot_api.Store.{UserStore}
use iot_api.Store.Mongo.{MongoStore}
use iot_api.Store.Mongo.Collections.{
  Reply, done, fails, Stored, ascending, Driver, error_of, result_of, result_or, count_result,
  decode_one, decoded_or_nil, everything, matching,
}
use iot_api.Store.Mongo.Documents.{
  UserDoc, RefreshDoc, user_to_doc, doc_to_user, refresh_to_doc, doc_to_refresh,
}

abbrev pub user_has_id : String → UserDoc → Bool
user_has_id id u = u.id == id

abbrev pub has_username : String → UserDoc → Bool
has_username username u = u.username == username

abbrev pub has_hash : String → RefreshDoc → Bool
has_hash hash t = t.token_hash == hash

abbrev pub owned_by : String → RefreshDoc → Bool
owned_by id t = t.user_id == id

-- The `$set` of `UpdateUser`.
abbrev pub set_credentials : User → UserDoc → UserDoc
set_credentials u d = record d { roles = u.roles; password_hash = u.password_hash }

abbrev pub user_result : Result UserDoc → Result User
user_result (ok doc) = ok (doc_to_user doc)
user_result (err e) = err e

-- An expired token is not found.
abbrev pub token_result : Time → Result RefreshDoc → Result RefreshToken
token_result now (err e) = err e
token_result now (ok doc) =
    if not (is_zero doc.expires_at) && after now doc.expires_at
    then err not_found
    else ok (doc_to_refresh doc)

module _ {Col : Type 0 → Type 0} (driver : Driver Col) where
  unfoldable pub create_user : User → Exec (MongoStore Col) (Unit {0})
  create_user u s =
      let r = driver.insert_one (user_to_doc u) s.users in
      (result_or duplicate_user r.0, record s { users = r.1 })

  unfoldable pub find_user : (Stored UserDoc → Bool) → MongoStore Col → Result User
  find_user filter s = user_result (decode_one (driver.find_one filter s.users))

  unfoldable pub get_user_by_username : String → MongoStore Col → Result User
  get_user_by_username username = find_user (matching (has_username username))

  unfoldable pub get_user_by_id : String → MongoStore Col → Result User
  get_user_by_id id = find_user (matching (user_has_id id))

  unfoldable pub list_users : MongoStore Col → List User
  list_users s =
      map (λ x. doc_to_user x.document)
        (decoded_or_nil (driver.find everything (λ u. u.created_at) ascending 0 s.users))

  unfoldable pub update_user : User → Exec (MongoStore Col) (Unit {0})
  update_user u s =
      let r = driver.update_one (matching (user_has_id u.id)) (set_credentials u) s.users in
      (count_result r.0, record s { users = r.1 })

  unfoldable pub delete_user : String → Exec (MongoStore Col) (Unit {0})
  delete_user id s =
      let r = driver.delete_one (matching (user_has_id id)) s.users in
      let s' = record s { users = r.1 } in
      elim (count_result r.0) [
        | err e ↦ (err e, s')
        | ok _ ↦ (
          ok tt,
          record s' { refresh = (driver.delete_many (matching (owned_by id)) s.refresh).1 },
        )
      ]

  unfoldable pub store_refresh_token : RefreshToken → Exec (MongoStore Col) (Unit {0})
  store_refresh_token rt s =
      let r = driver.insert_one (refresh_to_doc rt) s.refresh in
      (result_of r.0, record s { refresh = r.1 })

  unfoldable pub get_refresh_token : Time → String → MongoStore Col → Result RefreshToken
  get_refresh_token now hash s =
      token_result now (decode_one (driver.find_one (matching (has_hash hash)) s.refresh))

  -- The number of deleted tokens does not matter.
  abbrev pub ignore_count : Reply ℕ → Result (Unit {0})
  ignore_count (done n) = ok tt
  ignore_count (fails e) = err (error_of e)

  unfoldable pub delete_refresh_token : String → Exec (MongoStore Col) (Unit {0})
  delete_refresh_token hash s =
      let r = driver.delete_one (matching (has_hash hash)) s.refresh in
      (ignore_count r.0, record s { refresh = r.1 })

  unfoldable pub delete_user_refresh_tokens : String → Exec (MongoStore Col) (Unit {0})
  delete_user_refresh_tokens id s =
      let r = driver.delete_many (matching (owned_by id)) s.refresh in
      (ignore_count r.0, record s { refresh = r.1 })

  -- `MongoStore` as a `UserStore`.
  abbrev pub mongo_user_store : UserStore (MongoStore Col)
  mongo_user_store = record {
    create_user = create_user;
    get_user_by_username = get_user_by_username;
    get_user_by_id = get_user_by_id;
    list_users = list_users;
    update_user = update_user;
    delete_user = delete_user;
    store_refresh_token = store_refresh_token;
    get_refresh_token = get_refresh_token;
    delete_refresh_token = delete_refresh_token;
    delete_user_refresh_tokens = delete_user_refresh_tokens;
  }
