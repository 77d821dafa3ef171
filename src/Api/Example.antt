-- ===== src/Api/Example.antt =====
-- An example for the runs of internal/api/handlers.go: the memory store, bodies that stand for the
-- requests that they decode to, and a router that compares paths.
use iot_api.Common.{
  ℕ, ◌≡◌, sym, ap, ◌∙◌, inl, inr, String, Bool, true, false, ◌&&◌, ◌==◌, eq_iff, Bool-cases,
  if◌then◌else◌, Option, none, some, List, [], ◌∷◌, In, ok, err, external, arith,
}
use iot_api.Common.Int.{pos}
use iot_api.Models.{Telemetry}
use iot_api.Http.{Request}
use iot_api.Store.Memory.{MemoryStore, new_memory_store}
use iot_api.Alerts.{new_engine}
use iot_api.Analytics.{Arithmetic}
use iot_api.Auth.{Claims, Jwt, Manager}
use iot_api.Auth.Service as Accounts
use iot_api.Auth.Service.{Bcrypt}
use iot_api.Hub.{Hub, Channel, new_hub}
use iot_api.Pool.{Pool, new_pool}
use iot_api.Service.{Publisher}
use iot_api.Service.Queries.{HubAccess}
use iot_api.Api.{Environment, Draw, World, Handler}
use iot_api.Api.Routes.{Route, Match, found, no_route, Mux}
use iot_api.Api.Access.{MuxLaws}

abbrev pub viewer : Claims
viewer = record {
  roles = "viewer" ∷ [];
  subject = "ann";
  issuer = "iot-api";
  issued_at = 0;
  expires_at = 10;
}

-- It knows one token.
abbrev pub jwt : Jwt
jwt = record {
  numeric_date = λ t. t;
  signed_string = λ method key claims. ok "ann's";
  parse_with_claims =
      λ now keys methods issuer token. if token == "ann's" then ok (viewer, true) else err external;
}

abbrev pub bcrypt : Bcrypt
bcrypt = record {
  generate_from_password = λ salt password cost. ok password;
  compare_hash_and_password = λ hash password. hash == password;
}

abbrev pub arithmetic : Arithmetic
arithmetic = record { add = λ x y. x; div = λ x y. x; of_int = λ n. record { bits = n } }

abbrev pub environment : Environment
environment = record {
  login_request = λ body. ok (record { username = "bob"; password = "bob's password" });
  refresh_request = λ body. err external;
  create_user_request =
      λ body. ok (record { username = "bob"; password = "bob's password"; roles = [] });
  update_user_request = λ body. err external;
  register_device_request = λ body.
      ok (record { name = body; device_type = "actuator"; location = "roof"; metadata = [] });
  update_device_request = λ body. err external;
  telemetry_request =
      λ body. ok (record { timestamp = some 8; metrics = ("t", record { bits = 1 }) ∷ [] });
  bcrypt = bcrypt;
  jwt = jwt;
  crypto = record {
    sum256 = λ token. [];
    encode_hex = λ bytes. "h";
    encode_raw_url = λ bytes. "r";
  };
  arithmetic = arithmetic;
  parse_rfc3339 = λ text. err external;
  parse_duration = λ text. err external;
  atoi = λ text. err external;
  error_text = λ e. "error";
  upgrade = λ r. none;
}

abbrev pub manager : Manager
manager = record { secret = "key"; issuer = "iot-api"; ttl = pos 10 }

abbrev pub accounts : Accounts.Service
accounts = record { tokens = manager; refresh_ttl = pos 100; bcrypt_cost = 10 }

abbrev pub silent : Publisher Hub
silent = record { broadcast = λ e h. h }

abbrev pub access : HubAccess Hub
access = record { hub = λ h. h; set_hub = λ h old. h }

abbrev pub handler : Handler Hub (Unit {0})
handler = record {
  svc = record { alerts = new_engine []; publisher = silent; cache = none; offline_after = pos 30 };
  auth = some manager;
  auth_svc = some accounts;
}

abbrev pub first : List (Bool × Pool Telemetry) → Bool × Pool Telemetry
first [] = (false, new_pool (pos 1) (pos 1))
first (c ∷ cs) = c

abbrev pub draw : Draw
draw = record {
  now = 9;
  uuid = "fan";
  salt = "s";
  token = record { signed_at = 9; random = ok []; expires_from = 9; created_at = 9 };
  choose = first;
}

abbrev pub no_channel : ℕ → Channel
no_channel ch = record { buffer = []; capacity = 0; closed = false }

abbrev pub world : World MemoryStore Hub (Unit {0})
world = record {
  state = record {
    store = new_memory_store (pos 2);
    published = new_hub (pos 1) no_channel;
    cached = tt;
  };
  pool = new_pool (pos 1) (pos 1);
}

-- The first route whose template is the path and whose method is that of the request.
abbrev pub takes_method : Option String → String → Bool
takes_method none method = true
takes_method (some m) method = m == method

abbrev pub match_path : {E : Type 0} → List (Route E) → Request → Match E
match_path [] r = no_route
match_path (route ∷ table) r =
    if route.template == r.path && takes_method route.method r.method
    then found route ""
    else match_path table r

abbrev pub found_or : {E : Type 0} → Route E → Match E → Route E
found_or other (found route id) = route
found_or other m = other

abbrev pub mux : {E : Type 0} → Mux E
mux = record { match_route = match_path }

match_path_lem :
    {E : Type 0} (table : List (Route E)) (r : Request) (route : Route E) (id : String)
    → match_path table r ≡ found route id
    → In route table × (route.template ≡ r.path)
match_path_lem [] r route id = λ h. absurd (ground arith)
match_path_lem (first_route ∷ table) r route id =
    elim (Bool-cases (first_route.template == r.path && takes_method first_route.method r.method)) [
      | inl e ↦ rw e (λ h. (
        inl (sym (ap (found_or first_route) h)),
        ap (λ x. x.template) (sym (ap (found_or first_route) h))
            ∙ (eq_iff first_route.template r.path).0 (ground arith),
      ))
      | inr e ↦ rw e (λ h. let (i, p) = match_path_lem table r route id h in (inr i, p))
    ]

pub mux-MuxLaws : {E : Type 0} → MuxLaws {E = E} mux
mux-MuxLaws = record {
  In-found = λ table r route id h. (match_path_lem table r route id h).0;
  literal = λ table r route id h plain. (match_path_lem table r route id h).1;
}
