-- ===== src/Auth/Service/Tests.antt =====
-- Runs of internal/auth/service.go on the memory store, with a password hash and a signature that
-- are the texts themselves.
use iot_api.Common.{
  ℕ, if◌then◌else◌, ok-injective, ap, String, ◌≡◌, ◌≢◌, refl, ◌∙◌, arith, List, [], ◌∷◌, ◌==◌,
  eq_iff, ok, err, invalid_token,
}
use iot_api.Common.Int.{pos}
use iot_api.Common.GoMap.{lookup, insert, find_value}
use iot_api.GoTime.{is_zero, add}
use iot_api.Models.{User, RefreshToken}
use iot_api.Store.Memory.{MemoryStore, new_memory_store}
use iot_api.Store.Memory.Users
use iot_api.Store.Memory.Users.{memory_user_store}
use iot_api.Store.Memory.Calls.{Call, enrols, grants, call, run}
use iot_api.Store.Memory.Tokens.{memory_user_store-UserStoreLaws}
use iot_api.Auth.{Jwt, generate}
use iot_api.Auth.Service.{
  Bcrypt, Crypto, new_opaque_token, hash_token, Service, TokenPair, TokenDraw, issue_tokens,
  refresh, whole_seconds,
}
use iot_api.Auth.Service.Sessions.{Issued, refresh-Issued, refresh_twice}

abbrev bcrypt : Bcrypt
bcrypt = record {
  generate_from_password = λ salt password cost. ok password;
  compare_hash_and_password = λ hash password. hash == password;
}

abbrev jwt : Jwt
jwt = record {
  numeric_date = λ t. t;
  signed_string = λ method key claims. ok claims.subject;
  parse_with_claims = λ now keys methods issuer token. err invalid_token;
}

abbrev service : Service
service = record {
  tokens = record { secret = "key"; issuer = "iot-api"; ttl = pos 10 };
  refresh_ttl = pos 100;
  bcrypt_cost = 10;
}

-- It hashes the token `old` to `old` and any other to `new`, and encodes every draw as `new`.
abbrev digest : String → List ℕ
digest token = if token == "old" then [] else 0 ∷ []

abbrev hex : List ℕ → String
hex [] = "old"
hex (b ∷ bytes) = "new"

abbrev crypto : Crypto
crypto = record { sum256 = digest; encode_hex = hex; encode_raw_url = λ bytes. "new" }

abbrev ann : User
ann = record {
  id = "1";
  username = "ann";
  password_hash = "password";
  roles = "admin" ∷ [];
  created_at = 0;
}

abbrev old_session : RefreshToken
old_session = record { token_hash = "old"; user_id = "1"; expires_at = 50; created_at = 0 }

-- A store with one user, who has one session.
abbrev setup : List Call
setup = enrols ann ∷ grants old_session ∷ []

abbrev store : MemoryStore
store = run setup (new_memory_store (pos 0))

abbrev draw : TokenDraw
draw = record { signed_at = 1; random = ok []; expires_from = 1; created_at = 1 }

abbrev pair : TokenPair
pair = record {
  access_token = "1";
  refresh_token = "new";
  token_type = "Bearer";
  expires_in = pos 0;
}

found_old : Users.get_refresh_token 40 "old" store ≡ ok old_session
unfolding run call Users.create_user Users.store_refresh_token Users.get_refresh_token lookup insert
    is_zero find_value
found_old = refl

refreshed : (refresh memory_user_store bcrypt service jwt crypto "old" 40 draw store).0 ≡ ok pair
unfolding refresh issue_tokens generate whole_seconds add run call Users.create_user
    Users.store_refresh_token Users.get_refresh_token Users.delete_refresh_token
    Users.get_user_by_id lookup insert is_zero find_value hash_token new_opaque_token
refreshed = refl

refresh-Issued_example :
    (rt : RefreshToken) × (u : User) × (Users.get_refresh_token 40 "old" store ≡ ok rt)
    × (Users.get_user_by_id rt.user_id store ≡ ok u)
    × Issued memory_user_store memory_user_store-UserStoreLaws bcrypt service jwt crypto u draw pair
        (refresh memory_user_store bcrypt service jwt crypto "old" 40 draw store).1
unfolding hash_token
refresh-Issued_example =
    refresh-Issued memory_user_store memory_user_store-UserStoreLaws bcrypt service jwt crypto "old"
      40 draw store pair refreshed

new_ne_old :
    (r : String)
    → new_opaque_token crypto draw.random ≡ ok r
    → hash_token crypto r ≢ hash_token crypto "old"
unfolding new_opaque_token hash_token
new_ne_old r h e =
    ground (arith, (eq_iff "new" "old").1 (ap (hash_token crypto) (ok-injective "new" r h) ∙ e))

refresh_twice_example :
    let s' = (refresh memory_user_store bcrypt service jwt crypto "old" 40 draw store).1 in
    refresh memory_user_store bcrypt service jwt crypto "old" 41 draw s' ≡ (err invalid_token, s')
unfolding hash_token
refresh_twice_example =
    refresh_twice memory_user_store memory_user_store-UserStoreLaws bcrypt service jwt crypto "old"
      40 41 draw draw store old_session found_old new_ne_old

abbrev bob : User
bob = record {
  id = "2";
  username = "bob";
  password_hash = "long enough";
  roles = "viewer" ∷ [];
  created_at = 3;
}
