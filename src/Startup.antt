-- ===== src/Startup.antt =====
-- cmd/server/main.go: how each part is made. Launch puts them together, Process is what follows.
-- Logging is left out; `log.Fatalf` is an error. The goroutines that `main` starts are the loops of
-- Service/Queries and Cache.
pub mod Process
mod Stages
mod Shutdown
mod Exit
mod Launch
mod Failures
mod Seeding
mod Admin
mod Tests
use iot_api.Common.{
  ℕ, String, Bool, true, false, ◌==◌, if◌then◌else◌, Option, none, some, List, [], ◌∷◌, ◌⊎◌, inl,
  inr, Result, ok, err, Exec, pure, ◌>>=◌,
}
use iot_api.Common.Int.{pos}
use iot_api.Models.{AlertRule, Event, Telemetry, role_admin, severity_critical, severity_warning}
use iot_api.Store.{UserStore}
use iot_api.Store.Memory.{MemoryStore, new_memory_store}
use iot_api.Store.Mongo.{MongoConfig}
use iot_api.Hub
use iot_api.Hub.{Hub, Channel, new_hub}
use iot_api.Pool.{Pool, new_pool, start}
use iot_api.Alerts.{new_engine}
use iot_api.Auth.{Manager, new_manager}
use iot_api.Auth.Service as Accounts
use iot_api.Auth.Service.{Bcrypt, UserDraw}
use iot_api.Cache as Cache
use iot_api.Cache.{Client, Json}
use iot_api.Service.{Publisher, Service, with_publisher, with_status_cache, new_service}
use iot_api.Service.Queries.{HubAccess}
use iot_api.Configuration.{Config}
use iot_api.Mqtt.{Bridge, new_bridge}
use iot_api.Api.{Handler}

-- The storage backend: MongoDB where it is configured. `open_mongo` is `NewMongoStore` on the driver.
unfoldable pub open_store :
    {M : Type 0} → (MongoConfig → Result M) → Config → Result (M ⊎ MemoryStore)
open_store open_mongo cfg =
    if cfg.mongo_uri == ""
    then ok (inr (new_memory_store cfg.max_history))
    else elim (open_mongo (record {
      uri = cfg.mongo_uri;
      database = cfg.mongo_db;
      max_history = cfg.max_history;
      timeout = pos 0;
    })) [ err e ↦ err e | ok m ↦ ok (inl m) ]

unfoldable pub started_pool : Config → Pool Telemetry
started_pool cfg = start (new_pool cfg.workers cfg.queue_size)

-- The doubles 80, 15 and 95.
abbrev pub default_rules : List AlertRule
default_rules =
    record {
      metric = "temperature";
      operator = ">";
      threshold = record { bits = 0x4054000000000000 };
      severity = severity_critical;
    }
    ∷ record {
      metric = "battery";
      operator = "<";
      threshold = record { bits = 0x402e000000000000 };
      severity = severity_warning;
    }
    ∷ record {
      metric = "humidity";
      operator = ">";
      threshold = record { bits = 0x4057c00000000000 };
      severity = severity_warning;
    }
    ∷ []

-- What the service publishes to: the hub of this instance, whose panic would end the program, and the
-- client of Redis.
pub record Published (R : Type 0) : Type 0 where
  pub hub : Hub
  pub panicked : Bool
  pub remote : R

module _ {R : Type 0} where
  abbrev pub broadcast_hub : Event → Published R → Published R
  broadcast_hub event p = elim (Hub.broadcast event p.hub) [
    | none ↦ record p { panicked = true }
    | some h ↦ record p { hub = h }
  ]

  abbrev pub hub_publisher : Publisher (Published R)
  hub_publisher = record { broadcast = broadcast_hub }

  abbrev pub local_hub : HubAccess (Published R)
  local_hub = record { hub = λ p. p.hub; set_hub = λ h p. record p { hub = h } }

module _ {R : Type 0} (client : Client R) (json : Json) where
  abbrev pub remote_publisher : Publisher (Published R)
  remote_publisher = record {
    broadcast = λ event p. record p { remote = Cache.broadcast client json event p.remote };
  }

  -- Redis where it is configured: the publisher and the status cache, with the client. `idle`
  -- stands for the client that is not made.
  unfoldable pub connect_redis :
      R → Config → Result (List (Service (Published R) R → Service (Published R) R) × R)
  connect_redis idle cfg =
      if cfg.redis_addr == ""
      then ok ([], idle)
      else let made = Cache.new client (record {
        addr = cfg.redis_addr;
        password = cfg.redis_password;
        db = cfg.redis_db;
        status_ttl = cfg.redis_status_ttl;
      }) in
        elim made.0 [
          | err e ↦ err e
          | ok redis ↦ ok (
            with_publisher (some remote_publisher)
                ∷ with_status_cache (some (Cache.status_cache client json redis))
                ∷ [],
            made.1,
          )
        ]

  -- The service, with what it acts on besides the store.
  unfoldable pub build_service :
      R → (ℕ → Channel) → Config → Result (Service (Published R) R × Published R × R)
  build_service idle channels cfg = elim (connect_redis idle cfg) [
    | err e ↦ err e
    | ok (opts, remote) ↦ ok (
      new_service (new_engine default_rules) hub_publisher cfg.offline_after opts,
      record { hub = new_hub (pos 64) channels; panicked = false; remote = remote },
      remote,
    )
  ]

-- Authentication, where a secret is configured.
unfoldable pub auth_manager : Config → Option Manager
auth_manager cfg = new_manager (record { secret = cfg.jwt_secret; issuer = ""; ttl = cfg.jwt_ttl })

abbrev pub auth_service : Config → Option Manager → Option Accounts.Service
auth_service cfg none = none
auth_service cfg (some m) = some (Accounts.new_service m cfg.refresh_ttl)

module _ {S : Type 0} (us : UserStore S) (bcrypt : Bcrypt) where
  -- The admin user is seeded where authentication is enabled and a password is configured; the result
  -- tells whether it was created.
  unfoldable pub seed_admin : Config → UserDraw → Option Accounts.Service → Exec S Bool
  seed_admin cfg draw none = pure false
  seed_admin cfg draw (some svc) =
      if cfg.admin_password == ""
      then pure false
      else Accounts.ensure_user us bcrypt svc cfg.admin_username cfg.admin_password
          (role_admin ∷ []) draw

-- `api.NewHandler`.
unfoldable pub build_handler : {P C : Type 0} → Config → Service P C → Handler P C
build_handler cfg svc = record {
  svc = svc;
  auth = auth_manager cfg;
  auth_svc = auth_service cfg (auth_manager cfg);
}

-- The bridge, where a broker is configured; an error of its first connection is only logged.
unfoldable pub build_bridge : String → Config → Option Bridge
build_bridge fresh_id cfg =
    if cfg.mqtt_broker_url == ""
    then none
    else some (
        new_bridge fresh_id (record {
          broker_url = cfg.mqtt_broker_url;
          client_id = cfg.mqtt_client_id;
          topic_prefix = cfg.mqtt_topic_prefix;
          username = cfg.mqtt_username;
          password = cfg.mqtt_password;
          connect_retry = pos 0;
        }))
