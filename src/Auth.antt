-- ===== src/Auth.antt =====
-- internal/auth/auth.go: the `Manager` that issues and checks access tokens. The JWT library is a
-- parameter, `Jwt`; its time of call is an argument.
pub mod Credentials
pub mod Service
pub mod Middleware
pub mod Example
mod Tests
use iot_api.Common.{
  ◌*◌, String, Bool, ◌&&◌, Option, some, none, List, [], ◌∷◌, if◌then◌else◌, ◌==◌, Result, ok, err,
  invalid_token, ◌≡◌,
}
use iot_api.Common.Int.{pos, leb_ℤ}
use iot_api.GoTime.{Time, Duration, second, add}

-- `Claims` with the registered claims that the program sets.
pub record Claims : Type 0 where
  pub roles : List String
  pub subject : String
  pub issuer : String
  pub issued_at : Time
  pub expires_at : Time

-- The signing method that a token's header names: of the HMAC family, or another.
pub data SigningMethod : Type 0 where
  hmac : String → SigningMethod
  other_method : String → SigningMethod

abbrev pub hs256 : String
hs256 = "HS256"

-- github.com/golang-jwt/jwt: `NewNumericDate`, `SignedString` and `ParseWithClaims`. The last is
-- given the time, the key function, the methods and the issuer to accept, and returns the claims
-- with the token's `Valid` flag.
pub record Jwt : Type 0 where
  pub numeric_date : Time → Time
  pub signed_string : String → String → Claims → Result String
  pub parse_with_claims :
      Time
      → (SigningMethod → Result String)
      → List String
      → String
      → String
      → Result (Claims × Bool)

pub record Manager : Type 0 where
  pub secret : String
  pub issuer : String
  pub ttl : Duration

pub record Config : Type 0 where
  pub secret : String
  pub issuer : String
  pub ttl : Duration

-- No secret means that authentication is disabled.
unfoldable pub new_manager : Config → Option Manager
new_manager cfg =
    if cfg.secret == ""
    then none
    else some (record {
      secret = cfg.secret;
      issuer = if cfg.issuer == "" then "iot-api" else cfg.issuer;
      ttl = if leb_ℤ cfg.ttl (pos 0) then pos (15 * 60 * second) else cfg.ttl;
    })

-- The key function of `Parse`: a token of another family gets no key.
unfoldable pub key_for : Manager → SigningMethod → Result String
key_for m (hmac _) = ok m.secret
key_for m (other_method _) = err invalid_token

module _ (jwt : Jwt) where
  -- The claims that `Generate` signs.
  abbrev pub claims_at : Manager → Time → String → List String → Claims
  claims_at m now subject roles = record {
    roles = roles;
    subject = subject;
    issuer = m.issuer;
    issued_at = jwt.numeric_date now;
    expires_at = jwt.numeric_date (add now m.ttl);
  }

  unfoldable pub generate : Manager → Time → String → List String → Result String
  generate m now subject roles = jwt.signed_string hs256 m.secret (claims_at m now subject roles)

  abbrev if_valid : Result (Claims × Bool) → Result Claims
  if_valid (ok (claims, valid)) = if valid then ok claims else err invalid_token
  if_valid (err _) = err invalid_token

  unfoldable pub parse : Manager → Time → String → Result Claims
  parse m now token =
      if token == ""
      then err invalid_token
      else if_valid (jwt.parse_with_claims now (key_for m) (hs256 ∷ []) m.issuer token)
