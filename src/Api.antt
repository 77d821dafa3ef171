-- ===== src/Api.antt =====
-- internal/api/handlers.go: the state behind the handlers, what they read and what they write. The
-- handlers themselves are in the children.
pub mod Sessions
pub mod Users
pub mod Devices
pub mod Readings
pub mod Websocket
pub mod Routes
mod Access
mod Ingestion
mod Reports
mod Registration
pub mod Credentials
pub mod Example
mod Tests
use iot_api.Common.{ℕ, String, Bool, Option, none, some, List, [], ◌∷◌, Result, ok, err, Error}
use iot_api.Common.Int.{ℤ}
use iot_api.Common.GoMap.{GoMap}
use iot_api.GoTime.{Time, Duration}
use iot_api.Float64.{Float64}
use iot_api.Models.{
  Device, RegisterDeviceRequest, UpdateDeviceRequest, Telemetry, Alert, MetricStats, User,
}
use iot_api.Http
use iot_api.Http.{Request, Response, status_bad_request, status_not_found, status_no_content}
use iot_api.Analytics.{Arithmetic, Point}
use iot_api.Auth.{Claims, Jwt, Manager}
use iot_api.Auth.Service as Accounts
use iot_api.Auth.Service.{TokenPair, Bcrypt, Crypto, TokenDraw}
use iot_api.Pool.{Pool}
use iot_api.Service.{Service, State}

-- The value that is encoded as the body of a response.
pub data Body : Type 0 where
  no_body : Body
  strings : GoMap String → Body
  tokens : TokenPair → Body
  user : User → Body
  users : List User → Body
  device : Device → Body
  devices : List Device → Body
  telemetry : List Telemetry → Body
  alerts : List Alert → Body
  -- The fields device_id, stats and, where a metric is asked for, series.
  analytics : String → GoMap MetricStats → Option (List Point) → Body

-- The bodies that the handlers decode.
pub record LoginRequest : Type 0 where
  pub username : String
  pub password : String

pub record RefreshRequest : Type 0 where
  pub refresh_token : String

pub record CreateUserRequest : Type 0 where
  pub username : String
  pub password : String
  pub roles : List String

-- `none` is a nil slice.
pub record UpdateUserRequest : Type 0 where
  pub roles : Option (List String)
  pub password : String

pub record TelemetryRequest : Type 0 where
  pub timestamp : Option Time
  pub metrics : GoMap Float64

-- What the handlers call outside the program: the decoding of JSON into each request, bcrypt, the
-- JWT library, SHA-256, the arithmetic of doubles, the parsers of `time` and `strconv`, the text of
-- an error, and the upgrade of a connection, which gives a status if it fails.
pub record Environment : Type 0 where
  pub login_request : String → Result LoginRequest
  pub refresh_request : String → Result RefreshRequest
  pub create_user_request : String → Result CreateUserRequest
  pub update_user_request : String → Result UpdateUserRequest
  pub register_device_request : String → Result RegisterDeviceRequest
  pub update_device_request : String → Result UpdateDeviceRequest
  pub telemetry_request : String → Result TelemetryRequest
  pub bcrypt : Bcrypt
  pub jwt : Jwt
  pub crypto : Crypto
  pub arithmetic : Arithmetic
  pub parse_rfc3339 : String → Result Time
  pub parse_duration : String → Result Duration
  pub atoi : String → Result ℤ
  pub error_text : Error → String
  pub upgrade : Request → Option ℕ

-- What one request draws: the time, a fresh UUID, a salt and the parts of a token pair. `choose` is
-- the case that the select of a submission takes; where no case is ready the request waits, and
-- `choose` stands for what it finds when it goes on.
pub record Draw : Type 0 where
  pub now : Time
  pub uuid : String
  pub salt : String
  pub token : TokenDraw
  pub choose : List (Bool × Pool Telemetry) → Bool × Pool Telemetry

-- The state that all requests share.
pub record World (S P C : Type 0) : Type 0 where
  pub state : State S P C
  pub pool : Pool Telemetry

-- `auth` is `none` where authentication is disabled, `auth_svc` where user management is.
pub record Handler (P C : Type 0) : Type 0 where
  pub svc : Service P C
  pub auth : Option Manager
  pub auth_svc : Option Accounts.Service

-- A handler of a route: it is given the variable `id` of the path, the request and its claims.
abbrev pub Endpoint : Type 0 → Type 0 → Type 0 → Type 0
Endpoint S P C = String → Http.Handler Claims Body (World S P C)

-- `map[string]string{"error": message}`.
abbrev pub error_body : String → Body
error_body message = strings (("error", message) ∷ [])

module _ {S P C : Type 0} where
  abbrev pub write_json : ℕ → Body → World S P C → Response Body × World S P C
  write_json status body w = (record { status = status; body = body }, w)

  abbrev pub write_error : ℕ → String → World S P C → Response Body × World S P C
  write_error status message w = write_json status (error_body message) w

  -- `w.WriteHeader(http.StatusNoContent)`.
  abbrev pub write_no_content : World S P C → Response Body × World S P C
  write_no_content w = write_json status_no_content no_body w

  -- The user management, or 404 where it is disabled.
  abbrev pub with_accounts :
      Option Accounts.Service
      → (Accounts.Service → World S P C → Response Body × World S P C)
      → World S P C
      → Response Body × World S P C
  with_accounts none next w = write_error status_not_found "authentication is disabled" w
  with_accounts (some svc) next w = next svc w

  -- A decoded body, or 400.
  abbrev pub decoded {ℓ} :
      {A : Type ℓ}
      → Result A
      → (A → World S P C → Response Body × World S P C)
      → World S P C
      → Response Body × World S P C
  decoded (err _) next w = write_error status_bad_request "invalid JSON body" w
  decoded (ok req) next w = next req w

  -- A call of the service, on the world.
  abbrev pub on_state {ℓ} :
      {A : Type ℓ} → Result A × State S P C → World S P C → Result A × World S P C
  on_state r w = (r.0, record w { state = r.1 })

  -- A call of the user management, on the store.
  abbrev pub on_store {ℓ} : {A : Type ℓ} → Result A × S → World S P C → Result A × World S P C
  on_store r w = (r.0, record w { state = record w.state { store = r.1 } })
