-- ===== src/Http.antt =====
-- net/http as far as the handlers and middleware use it: the parts of a request that they read, the
-- response that they write, and handlers that run on a state. The context of a request carries the
-- claims that the authentication middleware puts there.
use iot_api.Common.{ℕ, String, Option}
use iot_api.Common.GoMap.{GoMap, lookup_or}

pub record Request : Type 0 where
  pub method : String
  pub path : String
  -- `r.Header.Get("Authorization")`, empty where the header is missing.
  pub authorization : String
  -- `r.URL.Query()`, the first value of each key.
  pub query : GoMap String
  -- The bytes of the body.
  pub body : String

-- `r.URL.Query().Get(key)`.
abbrev pub query_get : String → Request → String
query_get key r = lookup_or "" key r.query

-- What was given to the response writer: the status and the value that is encoded as the body.
pub record Response (B : Type 0) : Type 0 where
  pub status : ℕ
  pub body : B

abbrev pub status_ok : ℕ
status_ok = 200

abbrev pub status_created : ℕ
status_created = 201

abbrev pub status_accepted : ℕ
status_accepted = 202

abbrev pub status_no_content : ℕ
status_no_content = 204

abbrev pub status_bad_request : ℕ
status_bad_request = 400

abbrev pub status_unauthorized : ℕ
status_unauthorized = 401

abbrev pub status_forbidden : ℕ
status_forbidden = 403

abbrev pub status_not_found : ℕ
status_not_found = 404

abbrev pub status_conflict : ℕ
status_conflict = 409

abbrev pub status_internal_server_error : ℕ
status_internal_server_error = 500

abbrev pub status_service_unavailable : ℕ
status_service_unavailable = 503

-- A handler on the state `S`, with the claims `C` of the request's context if there are any.
abbrev pub Handler : Type 0 → Type 0 → Type 0 → Type 0
Handler C B S = Request → Option C → S → Response B × S
