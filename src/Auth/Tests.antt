-- ===== src/Auth/Tests.antt =====
-- Runs of internal/auth/auth.go and middleware.go on small examples, with a signing library that
-- knows one key and one set of claims.
use iot_api.Common.{ℕ, suc, String, refl, none, []}
use iot_api.Common.Int.{pos}
use iot_api.Http.{Request, Handler}
use iot_api.Auth.{Claims, Manager}
use iot_api.Auth.Example.{jwt}
use iot_api.Auth.Middleware.{is_public, middleware, require_role}
use iot_api.Auth.Middleware.Guards.{Outcome, guarded-Outcome}

abbrev manager : Manager
manager = record { secret = "key"; issuer = "iot-api"; ttl = pos 10 }

abbrev the_claims : Claims
the_claims = record {
  roles = [];
  subject = "ann";
  issuer = "iot-api";
  issued_at = 0;
  expires_at = 10;
}

abbrev message : String → String
message m = m

-- A handler that counts its calls.
abbrev count_calls : Handler Claims String ℕ
count_calls r context s = (record { status = 200; body = "" }, suc s)

abbrev request : Request
request = record {
  method = "GET";
  path = "/api/users";
  authorization = "Bearer signed";
  query = [];
  body = "";
}

guarded-Outcome_example :
    Outcome message (jwt the_claims) manager 9 "viewer" count_calls request 0 (
      middleware message
        (jwt the_claims)
        manager
        9
        (require_role message "viewer" count_calls)
        request
        none
        0)
unfolding is_public
guarded-Outcome_example =
    guarded-Outcome message (jwt the_claims) manager 9 "viewer" count_calls request none 0 refl
