-- ===== src/Store/Mongo.antt =====
-- internal/store/mongo.go: the store on MongoDB, its state and its indexes. The operations are in the
-- children.
pub mod Collections
pub mod Documents
pub mod Devices
pub mod Telemetry
pub mod Users
pub mod Server
pub mod Keyed
mod Sessions
pub mod Lifecycle
mod Shelf
pub mod Series
mod Indexes
mod History
use iot_api.Common.{◌*◌, String, ◌==◌, if◌then◌else◌, [], ◌∷◌, Exec, Result, ok, err}
use iot_api.Common.Int.{ℤ, pos, leb_ℤ}
use iot_api.GoTime.{Duration, second}
use iot_api.Store.Mongo.Collections.{Reply, done, fails, Driver, error_of, result_of}
use iot_api.Store.Mongo.Documents.{DeviceDoc, TelemetryDoc, AlertDoc, UserDoc, RefreshDoc}

-- The five collections.
pub record MongoStore (Col : Type 0 → Type 0) : Type 0 where
  pub devices : Col DeviceDoc
  pub telemetry : Col TelemetryDoc
  pub alerts : Col AlertDoc
  pub users : Col UserDoc
  pub refresh : Col RefreshDoc
  pub max_history : ℤ
  pub timeout : Duration

pub record MongoConfig : Type 0 where
  pub uri : String
  pub database : String
  pub max_history : ℤ
  pub timeout : Duration

-- The defaults of `NewMongoStore`.
unfoldable pub with_defaults : MongoConfig → MongoConfig
with_defaults cfg = record cfg {
  database = if cfg.database == "" then "iot" else cfg.database;
  timeout = if leb_ℤ cfg.timeout (pos 0) then pos (5 * second) else cfg.timeout;
}

module _ {Col : Type 0 → Type 0} (driver : Driver Col) where
  -- The calls of `ensureIndexes`, of which the first that fails ends it.
  abbrev pub and_then :
      Reply (Unit {0}) × MongoStore Col
      → (MongoStore Col → Reply (Unit {0}) × MongoStore Col)
      → Reply (Unit {0}) × MongoStore Col
  and_then r next = elim r.0 [ fails e ↦ (fails e, r.1) | done _ ↦ next r.1 ]

  abbrev pub index_devices : MongoStore Col → Reply (Unit {0}) × MongoStore Col
  index_devices s =
      let r = driver.create_unique_indexes ((λ d. d.id) ∷ []) s.devices in
      (r.0, record s { devices = r.1 })

  abbrev pub index_telemetry : MongoStore Col → Reply (Unit {0}) × MongoStore Col
  index_telemetry s =
      let r = driver.create_index ("device_id" ∷ "timestamp" ∷ []) s.telemetry in
      (r.0, record s { telemetry = r.1 })

  abbrev pub index_alerts : MongoStore Col → Reply (Unit {0}) × MongoStore Col
  index_alerts s =
      let r = driver.create_index ("device_id" ∷ "created_at" ∷ []) s.alerts in
      (r.0, record s { alerts = r.1 })

  abbrev pub index_users : MongoStore Col → Reply (Unit {0}) × MongoStore Col
  index_users s =
      let r = driver.create_unique_indexes ((λ u. u.id) ∷ (λ u. u.username) ∷ []) s.users in
      (r.0, record s { users = r.1 })

  abbrev pub index_refresh : MongoStore Col → Reply (Unit {0}) × MongoStore Col
  index_refresh s =
      let r = driver.create_unique_indexes ((λ t. t.token_hash) ∷ []) s.refresh in
      (r.0, record s { refresh = r.1 })

  unfoldable pub ensure_indexes : MongoStore Col → Reply (Unit {0}) × MongoStore Col
  ensure_indexes s = and_then (index_devices s) (λ s1.
      and_then (index_telemetry s1)
        (λ s2. and_then (index_alerts s2) (λ s3. and_then (index_users s3) index_refresh)))

  -- `connect` stands for `mongo.Connect` and `Ping`; `collections` for the handles of the database.
  unfoldable pub new_mongo_store :
      (String → Reply (Unit {0}))
      → (String → MongoConfig → MongoStore Col)
      → MongoConfig
      → Result (MongoStore Col)
  new_mongo_store connect collections config =
      let cfg = with_defaults config in
      elim (connect cfg.uri) [
        | fails e ↦ err (error_of e)
        | done _ ↦
            let r = ensure_indexes (record (collections cfg.database cfg) {
              max_history = cfg.max_history;
              timeout = cfg.timeout;
            }) in
            elim r.0 [ fails e ↦ err (error_of e) | done _ ↦ ok r.1 ]
      ]

-- `Close`, on the client of the driver.
unfoldable pub close : {C : Type 0} → (C → Reply (Unit {0}) × C) → Exec C (Unit {0})
close disconnect c = let r = disconnect c in (result_of r.0, r.1)
