-- ===== src/Auth/Middleware.antt =====
-- internal/auth/middleware.go: authentication and role checks in front of a handler. The body of an
-- error response is the message that `writeJSONError` encodes.
pub mod Guards
use iot_api.Common.{
  ℕ, String, Bool, false, ◌&&◌, ◌||◌, not, Option, some, none, List, [], ◌∷◌, if◌then◌else◌, ◌==◌,
  ok, err,
}
use iot_api.GoTime.{Time}
use iot_api.GoStrings.{cut_prefix, trim_space}
use iot_api.Models.{role_admin}
use iot_api.Http.{Request, query_get, Response, Handler, status_unauthorized, status_forbidden}
use iot_api.Auth.{Claims, Jwt, Manager, parse}

-- `_, ok := defaultPublicPaths[path]`.
unfoldable pub is_public : String → Bool
is_public path =
    path == "/health"
    || path == "/api/auth/login"
    || path == "/api/auth/refresh"
    || path == "/api/auth/logout"

-- `for _, r := range roles { if r == want { return true } }`.
unfoldable pub has_role : List String → String → Bool
has_role [] want = false
has_role (r ∷ roles) want = r == want || has_role roles want

-- The token of the query, where the header holds no bearer token.
abbrev pub or_query : Request → Option String → String
or_query r none = query_get "token" r
or_query r (some after) = trim_space after

unfoldable pub extract_token : Request → String
extract_token r =
    if not (r.authorization == "")
    then or_query r (cut_prefix r.authorization "Bearer ")
    else query_get "token" r

module _ {B S : Type 0} (error_body : String → B) where
  -- `writeJSONError`.
  abbrev pub write_json_error : ℕ → String → S → Response B × S
  write_json_error status message s = (record { status = status; body = error_body message }, s)

  unfoldable pub middleware : Jwt → Manager → Time → Handler Claims B S → Handler Claims B S
  middleware jwt m now next r context s =
      if is_public r.path then next r context s else elim (parse jwt m now (extract_token r)) [
        | err _ ↦ write_json_error status_unauthorized "unauthorized" s
        | ok claims ↦ next r (some claims) s
      ]

  unfoldable pub require_role : String → Handler Claims B S → Handler Claims B S
  require_role role next r none s = write_json_error status_unauthorized "unauthorized" s
  require_role role next r (some claims) s =
      if not (has_role claims.roles role) && not (has_role claims.roles role_admin)
      then write_json_error status_forbidden "insufficient permissions" s
      else next r (some claims) s

-- `SubjectFrom`.
unfoldable pub subject_from : Option Claims → Option String
subject_from none = none
subject_from (some c) = some c.subject
