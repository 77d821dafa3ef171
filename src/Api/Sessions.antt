-- ===== src/Api/Sessions.antt =====
-- internal/api/handlers.go: health, login, refresh and logout.
use iot_api.Common.{String, [], ◌∷◌, Result, ok, err}
use iot_api.Http.{Response, status_ok, status_unauthorized, status_internal_server_error}
use iot_api.Store.{UserStore}
use iot_api.Auth.Service as Accounts
use iot_api.Auth.Service.{TokenPair}
use iot_api.Api.{
  Body, strings, tokens, Environment, Draw, World, Handler, Endpoint, write_json, write_error,
  write_no_content, with_accounts, decoded, on_store,
}

module _ {S P C : Type 0} where
  unfoldable pub health : Endpoint S P C
  health id r c w = write_json status_ok (strings (("status", "ok") ∷ [])) w

  -- A token pair, or 401 with a message that does not tell the reason.
  abbrev pub answer_tokens : String → Result TokenPair × World S P C → Response Body × World S P C
  answer_tokens message result = elim result.0 [
    | ok pair ↦ write_json status_ok (tokens pair) result.1
    | err _ ↦ write_error status_unauthorized message result.1
  ]

  abbrev pub answer_logout : Result (Unit {0}) × World S P C → Response Body × World S P C
  answer_logout result = elim result.0 [
    | ok _ ↦ write_no_content result.1
    | err _ ↦ write_error status_internal_server_error "could not revoke token" result.1
  ]

module _ {S P C : Type 0} (us : UserStore S) (env : Environment) (h : Handler P C)
    (draw : Draw) where
  unfoldable pub login : Endpoint S P C
  login id r c = with_accounts h.auth_svc (λ svc. decoded (env.login_request r.body) (λ req w.
      answer_tokens "invalid credentials" (
        on_store
          (Accounts.login us env.bcrypt svc env.jwt env.crypto req.username req.password draw.token
            w.state.store)
          w)))

  unfoldable pub refresh : Endpoint S P C
  refresh id r c = with_accounts h.auth_svc (λ svc. decoded (env.refresh_request r.body) (λ req w.
      answer_tokens "invalid refresh token" (
        on_store
          (Accounts.refresh us env.bcrypt svc env.jwt env.crypto req.refresh_token draw.now
            draw.token w.state.store)
          w)))

  unfoldable pub logout : Endpoint S P C
  logout id r c = with_accounts h.auth_svc (λ svc. decoded (env.refresh_request r.body) (λ req w.
      answer_logout (
        on_store
          (Accounts.logout us env.bcrypt svc env.jwt env.crypto req.refresh_token w.state.store)
          w)))
