-- ===== src/Auth/Service.antt =====
-- internal/auth/service.go: users, passwords and the two kinds of token. The store is any
-- `UserStore`; bcrypt, SHA-256, the encodings, the JWT library and each draw of randomness and of the
-- clock are parameters.
pub mod Accounts
pub mod Sessions
mod Tests
use Prim.Native.String.{len}
use iot_api.Common.{
  ℕ, ◌+◌, ◌*◌, ◌/◌, String, Bool, true, false, Option, some, none, List, [], ◌∷◌, if◌then◌else◌,
  ◌==◌, ltb, Result, ok, err, not_found, weak_password, invalid_credentials, invalid_token, Exec,
  pure, raise, lift, reads, ◌>>=◌, ◌>>◌, ignoring,
}
use iot_api.Common.Int.{ℤ, pos, negsuc, sub_ℕ, leb_ℤ}
use iot_api.GoTime.{Time, Duration, second, add}
use iot_api.Models.{User, role_viewer}
use iot_api.Store.{UserStore}
use iot_api.Auth.{Jwt, Manager, generate}

pub record TokenPair : Type 0 where
  pub access_token : String
  pub refresh_token : String
  pub token_type : String
  pub expires_in : ℤ

-- golang.org/x/crypto/bcrypt: `GenerateFromPassword` with the salt that it draws, and
-- `CompareHashAndPassword`, `true` where it returns no error.
pub record Bcrypt : Type 0 where
  pub generate_from_password : String → String → ℕ → Result String
  pub compare_hash_and_password : String → String → Bool

-- `bcrypt.DefaultCost`.
abbrev pub default_cost : ℕ
default_cost = 10

-- crypto/sha256, encoding/hex and encoding/base64: `Sum256` on the bytes of a text, `EncodeToString`
-- of hex, and of `RawURLEncoding`.
pub record Crypto : Type 0 where
  pub sum256 : String → List ℕ
  pub encode_hex : List ℕ → String
  pub encode_raw_url : List ℕ → String

-- On what `rand.Read` does with the 32 bytes.
unfoldable pub new_opaque_token : Crypto → Result (List ℕ) → Result String
new_opaque_token crypto (err e) = err e
new_opaque_token crypto (ok bytes) = ok (crypto.encode_raw_url bytes)

unfoldable pub hash_token : Crypto → String → String
hash_token crypto token = crypto.encode_hex (crypto.sum256 token)

pub record Service : Type 0 where
  pub tokens : Manager
  pub refresh_ttl : Duration
  pub bcrypt_cost : ℕ

-- A lifetime that is not positive means seven days.
unfoldable pub new_service : Manager → Duration → Service
new_service tokens refresh_ttl = record {
  tokens = tokens;
  refresh_ttl = if leb_ℤ refresh_ttl (pos 0) then pos (7 * 24 * 3600 * second) else refresh_ttl;
  bcrypt_cost = default_cost;
}

-- What `CreateUser` draws: the salt of the hash, a fresh UUID and the time.
pub record UserDraw : Type 0 where
  pub salt : String
  pub uuid : String
  pub now : Time

-- What `issueTokens` draws: three readings of the clock, and the random bytes or the error of
-- reading them.
pub record TokenDraw : Type 0 where
  pub signed_at : Time
  pub random : Result (List ℕ)
  pub expires_from : Time
  pub created_at : Time

-- `int(d.Seconds())`, towards zero.
unfoldable pub whole_seconds : Duration → ℤ
whole_seconds (pos n) = pos (n / second)
whole_seconds (negsuc n) = sub_ℕ 0 ((n + 1) / second)

-- The password is too short: `len(password) < 8`, in bytes.
unfoldable pub is_weak : String → Bool
is_weak password = ltb (len password) 8

abbrev pub or_viewer : List String → List String
or_viewer [] = role_viewer ∷ []
or_viewer (r ∷ rs) = r ∷ rs

-- A nil slice, `none`, leaves the roles as they are.
abbrev pub with_roles : Option (List String) → User → User
with_roles none u = u
with_roles (some roles) u = record u { roles = roles }

-- Any error of a lookup becomes `ErrInvalidToken`.
abbrev pub as_invalid_token {ℓ} : {A : Type ℓ} → Result A → Result A
as_invalid_token (ok a) = ok a
as_invalid_token (err _) = err invalid_token

-- The branches of `EnsureUser` on the lookup of the username.
abbrev pub ensure_from : {S : Type 0} → Result User → Exec S User → Exec S Bool
ensure_from (ok _) create = pure false
ensure_from (err not_found) create = do create; pure true
ensure_from (err e) create = raise e

module _ (bcrypt : Bcrypt) (svc : Service) where
  -- The first `if password != ""` of `UpdateUser`.
  unfoldable pub with_password : String → String → User → Result User
  with_password salt password u =
      if password == ""
      then ok u
      else if is_weak password
      then err weak_password
      else elim (bcrypt.generate_from_password salt password svc.bcrypt_cost) [
        | ok hash ↦ ok (record u { password_hash = hash })
        | err e ↦ err e
      ]

module _ {S : Type 0} (o : UserStore S) (bcrypt : Bcrypt) (svc : Service) where
  unfoldable pub create_user : String → String → List String → UserDraw → Exec S User
  create_user username password roles draw = if is_weak password then raise weak_password else do
    hash ← lift (bcrypt.generate_from_password draw.salt password svc.bcrypt_cost)
    let u : User = record {
      id = draw.uuid;
      username = username;
      password_hash = hash;
      roles = or_viewer roles;
      created_at = draw.now;
    }
    o.create_user u
    pure u

  unfoldable pub ensure_user : String → String → List String → UserDraw → Exec S Bool
  ensure_user username password roles draw s =
      ensure_from (o.get_user_by_username username s) (create_user username password roles draw) s

  unfoldable pub list_users : S → List User
  list_users s = o.list_users s

  unfoldable pub get_user : String → S → Result User
  get_user id s = o.get_user_by_id id s

  unfoldable pub update_user : String → Option (List String) → String → String → Exec S User
  update_user id roles password salt = do
    found ← reads (o.get_user_by_id id)
    u ← lift (with_password bcrypt svc salt password (with_roles roles found))
    o.update_user u
    if password == "" then pure u else ignoring (o.delete_user_refresh_tokens u.id) (pure u)

  unfoldable pub delete_user : String → Exec S (Unit {0})
  delete_user id = o.delete_user id

  -- The comparison with a dummy hash for an unknown user has no effect but its running time.
  unfoldable pub authenticate : String → String → S → Result User
  authenticate username password s = elim (o.get_user_by_username username s) [
    | err _ ↦ err invalid_credentials
    | ok u ↦
        if bcrypt.compare_hash_and_password u.password_hash password
        then ok u
        else err invalid_credentials
  ]

  module _ (jwt : Jwt) (crypto : Crypto) where
    unfoldable pub issue_tokens : User → TokenDraw → Exec S TokenPair
    issue_tokens u draw = do
      access ← lift (generate jwt svc.tokens draw.signed_at u.id u.roles)
      refresh ← lift (new_opaque_token crypto draw.random)
      o.store_refresh_token (record {
        token_hash = hash_token crypto refresh;
        user_id = u.id;
        expires_at = add draw.expires_from svc.refresh_ttl;
        created_at = draw.created_at;
      })
      pure (record {
        access_token = access;
        refresh_token = refresh;
        token_type = "Bearer";
        expires_in = whole_seconds svc.tokens.ttl;
      })

    unfoldable pub login : String → String → TokenDraw → Exec S TokenPair
    login username password draw = do
      u ← reads (authenticate username password)
      issue_tokens u draw

    -- The presented token is deleted before its user is looked up.
    unfoldable pub refresh : String → Time → TokenDraw → Exec S TokenPair
    refresh token now draw = do
      rt ← reads (λ s. as_invalid_token (o.get_refresh_token now (hash_token crypto token) s))
      ignoring (o.delete_refresh_token (hash_token crypto token)) (do
        u ← reads (λ s. as_invalid_token (o.get_user_by_id rt.user_id s))
        issue_tokens u draw)

    unfoldable pub logout : String → Exec S (Unit {0})
    logout token = o.delete_refresh_token (hash_token crypto token)
