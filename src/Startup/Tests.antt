-- ===== src/Startup/Tests.antt =====
-- A start of cmd/server/main.go with an admin password, on a memory store without users.
mod Shutdown
mod Launch
use iot_api.Common.{
  ◌≡◌, refl, sym, true, ◌<◌, Bool, Result, ◌==◌, eq_iff, none, some, [], ◌∷◌, ok, err, external,
  ok-injective,
}
use iot_api.Common.Int.{pos}
use iot_api.Common.GoMap.{find_value}
use iot_api.Models.{role_admin}
use iot_api.Store.Memory.{MemoryStore, new_memory_store}
use iot_api.Store.Memory.Users
use iot_api.Store.Memory.Users.{memory_user_store}
use iot_api.Store.Memory.Tokens.{memory_user_store-UserStoreLaws}
use iot_api.Auth.Service as Accounts
use iot_api.Auth.Service.{Bcrypt, UserDraw, is_weak, ensure_user}
use iot_api.Configuration as Configuration
use iot_api.Configuration.{Config, load}
use iot_api.Pool as Workers
use iot_api.Pool.{Pool}
use iot_api.GoTime.{Time, add}
use iot_api.Http.{Request}
use iot_api.Hub.{Hub}
use iot_api.Auth.{Claims, Manager, new_manager, generate, parse}
use iot_api.Auth.Service.{TokenPair}
use iot_api.Auth.Example.{jwt, jwt_laws}
use iot_api.Api.{Environment, World, tokens}
use iot_api.Api.Example as Sample
use iot_api.Api.Sessions.{login}
use iot_api.Startup.Admin.{seed_admin-login}
use iot_api.Startup.{seed_admin, auth_manager, auth_service, build_handler}

abbrev environment : Configuration.Environment
environment = record {
  lookup_env = λ key. none;
  atoi = λ text. err external;
  parse_duration = λ text. err external;
}

abbrev pub config : Config
config = record (load environment) { admin_username = "root"; admin_password = "very secret" }

abbrev pub bcrypt : Bcrypt
bcrypt = record {
  generate_from_password = λ salt password cost. ok password;
  compare_hash_and_password = λ hash password. hash == password;
}

abbrev pub draw : UserDraw
draw = record { salt = "s"; uuid = "1"; now = 3 }

abbrev before : MemoryStore
before = new_memory_store (pos 2)

-- The same with a secret, and a login over the API.
abbrev secured : Config
secured = record config { jwt_secret = "key"; jwt_ttl = pos 10 }

abbrev manager : Manager
manager = record { secret = "key"; issuer = "iot-api"; ttl = pos 10 }

is_enabled : auth_manager secured ≡ some manager
unfolding auth_manager new_manager
is_enabled = refl

abbrev admin_claims : Claims
admin_claims = record {
  roles = role_admin ∷ [];
  subject = "1";
  issuer = "iot-api";
  issued_at = 9;
  expires_at = 19;
}

abbrev env : Environment
env = record Sample.environment {
  login_request = λ body. ok (record { username = "root"; password = "very secret" });
  jwt = jwt admin_claims;
}

abbrev seeding : Result Bool × MemoryStore
seeding =
    seed_admin memory_user_store env.bcrypt secured draw
      (auth_service secured (auth_manager secured)) before

abbrev world : World MemoryStore Hub (Unit {0})
world = record Sample.world {
  state = record { store = seeding.1; published = Sample.world.state.published; cached = tt };
}

abbrev asks : Request
asks = record {
  method = "POST";
  path = "/api/auth/login";
  authorization = "";
  query = [];
  body = "";
}

seeding_lem : seeding.0 ≡ ok true
unfolding auth_manager new_manager Accounts.new_service seed_admin ensure_user Accounts.create_user
    is_weak Users.create_user Users.get_user_by_username find_value
seeding_lem = refl

signed : generate env.jwt manager 9 "1" (role_admin ∷ []) ≡ ok "signed"
unfolding generate add
signed = refl

seed_admin-login_example :
    (pair : TokenPair) × (claims : Claims) × ((login memory_user_store env
        (build_handler secured Sample.handler.svc)
        Sample.draw
        ""
        asks
        none
        world).0
      ≡ record { status = 200; body = tokens pair })
    × ((later : Time)
        → later < env.jwt.numeric_date (add 9 manager.ttl)
        → parse env.jwt manager later pair.access_token ≡ ok claims)
    × (claims.roles ≡ role_admin ∷ [])
unfolding Accounts.new_opaque_token jwt_laws
seed_admin-login_example =
    seed_admin-login memory_user_store memory_user_store-UserStoreLaws env (jwt_laws admin_claims)
      secured manager is_enabled draw Sample.draw "" asks none Sample.handler.svc before world "r"
      "signed" seeding_lem refl
      (λ salt p hash cost h. (eq_iff hash p).1 (sym (ok-injective p hash h))) refl refl tt tt signed
