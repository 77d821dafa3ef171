-- ===== src/Service.antt =====
-- internal/service/service.go: the device lifecycle, the processing of telemetry and the
-- reconciliation of statuses, over any `Store`, any publisher of events and, if there is one, any
-- status cache. Errors that the source only logs are dropped. Each function takes the time and the
-- identifiers that it draws.
mod Events
pub mod Ingestion
pub mod Reconciliation
pub mod Devices
pub mod Offline
pub mod Queries
pub mod Caching
pub mod Workers
pub mod Race
mod Example
mod Tests
pub use Events.*
use iot_api.Common.{
  ℕ, ◌*◌, String, Bool, ◌&&◌, not, Option, none, some, List, [], ◌∷◌, if◌then◌else◌, ◌==◌, Result,
  ok, err, Exec,
}
use iot_api.Common.Int.{pos, ltb_ℤ, leb_ℤ}
use iot_api.GoTime.{Time, Duration, zero_time, is_zero, second, sub}
use iot_api.Float64.{Float64}
use iot_api.Models.{
  Device, DeviceStatus, status_online, status_offline, RegisterDeviceRequest, UpdateDeviceRequest,
  Telemetry, Alert, Event,
}
use iot_api.Store.{Store}
use iot_api.Pool.{Pool, submit}
use iot_api.Alerts.{Engine, AlertDraw, evaluate}

-- `Publisher`, on its own state.
pub record Publisher (P : Type 0) : Type 0 where
  pub broadcast : Event → P → P

-- `StatusCache`, on its own state. A reading is `none` where `ok` is false.
pub record StatusCache (C : Type 0) : Type 0 where
  pub set_device_status : String → DeviceStatus → Time → Exec C (Unit {0})
  pub get_device_status : String → C → Result (Option (DeviceStatus × Time))

pub record Service (P C : Type 0) : Type 0 where
  pub alerts : Engine
  pub publisher : Publisher P
  -- `none` is a nil cache.
  pub cache : Option (StatusCache C)
  pub offline_after : Duration

-- What the service acts on: the store, the publisher and the cache.
pub record State (S P C : Type 0) : Type 0 where
  pub store : S
  pub published : P
  pub cached : C

module _ {P C : Type 0} where
  -- `WithPublisher`: nil changes nothing.
  abbrev pub with_publisher : Option (Publisher P) → Service P C → Service P C
  with_publisher none svc = svc
  with_publisher (some p) svc = record svc { publisher = p }

  abbrev pub with_status_cache : Option (StatusCache C) → Service P C → Service P C
  with_status_cache c svc = record svc { cache = c }

  -- `for _, opt := range opts { opt(svc) }`.
  abbrev pub apply_options : List (Service P C → Service P C) → Service P C → Service P C
  apply_options [] svc = svc
  apply_options (opt ∷ opts) svc = apply_options opts (opt svc)

  -- The hub is the first publisher. A window that is not positive means 30 seconds.
  unfoldable pub new_service :
      Engine → Publisher P → Duration → List (Service P C → Service P C) → Service P C
  new_service eng hub offline_after opts = apply_options opts (record {
    alerts = eng;
    publisher = hub;
    cache = none;
    offline_after = if leb_ℤ offline_after (pos 0) then pos (30 * second) else offline_after;
  })

-- What `GetDevice` makes of the cache's answer; an error or a miss leaves the device.
abbrev pub overlay : Result (Option (DeviceStatus × Time)) → Device → Device
overlay (err _) d = d
overlay (ok none) d = d
overlay (ok (some (status, seen))) d = record d {
  status = status;
  last_seen_at = if is_zero seen then d.last_seen_at else seen;
}

-- A sample without a time is given the time of its ingestion.
unfoldable pub stamped : Time → Telemetry → Telemetry
stamped now t = if is_zero t.timestamp then record t { timestamp = now } else t

-- `IngestTelemetry`: the job that is submitted processes the stamped sample.
unfoldable pub ingest_telemetry : Time → Telemetry → Pool Telemetry → List (Bool × Pool Telemetry)
ingest_telemetry now t pool = submit (stamped now t) pool

-- `if err != nil { … }` where both branches only change the state.
abbrev pub if_ok {ℓ} : {A B : Type ℓ} → Result A → B → B → B
if_ok (ok _) done failed = done
if_ok (err _) done failed = failed

abbrev pub write_status :
    {C : Type 0} → Option (StatusCache C) → String → DeviceStatus → Time → C → C
write_status none id status seen c = c
write_status (some cache) id status seen c = (cache.set_device_status id status seen c).1

abbrev pub read_status :
    {C : Type 0} → Option (StatusCache C) → String → C → Result (Option (DeviceStatus × Time))
read_status none id c = ok none
read_status (some cache) id c = cache.get_device_status id c

module _ {P C : Type 0} (svc : Service P C) where
  -- The conditions of the loop in `ReconcileStatuses`.
  unfoldable pub goes_offline : Time → Device → Bool
  goes_offline now d =
      not (is_zero d.last_seen_at)
      && ltb_ℤ svc.offline_after (sub now d.last_seen_at)
      && not (d.status == status_offline)

module _ {S P C : Type 0} (svc : Service P C) where
  abbrev pub publish : Event → State S P C → State S P C
  publish event st = record st { published = svc.publisher.broadcast event st.published }

  -- `cacheStatus`: a failure is logged.
  abbrev pub cache_status : String → DeviceStatus → Time → State S P C → State S P C
  cache_status id status seen st = record st {
    cached = write_status svc.cache id status seen st.cached;
  }

module _ {S P C : Type 0} (o : Store S) (svc : Service P C) where
  unfoldable pub register_device : RegisterDeviceRequest → String → Time → Exec (State S P C) Device
  register_device req uuid now st =
      let d = new_device req uuid now in
      let r = o.create_device d st.store in
      let st' = record st { store = r.1 } in
      elim r.0 [
        | err e ↦ (err e, st')
        | ok _ ↦
            (ok d, publish svc (device_event d now) (cache_status svc d.id d.status zero_time st'))
      ]

  unfoldable pub get_device : String → State S P C → Result Device
  get_device id st = elim (o.get_device id st.store) [
    | err e ↦ err e
    | ok d ↦ ok (overlay (read_status svc.cache id st.cached) d)
  ]

  unfoldable pub delete_device : String → Exec (State S P C) (Unit {0})
  delete_device id st = let r = o.delete_device id st.store in (r.0, record st { store = r.1 })

  unfoldable pub update_device : String → UpdateDeviceRequest → Time → Exec (State S P C) Device
  update_device id req now st =
      let r = o.update_device id req.name req.device_type req.location req.metadata st.store in
      let st' = record st { store = r.1 } in
      elim r.0 [
        | err e ↦ (err e, st')
        | ok _ ↦ elim (get_device id st') [
          | err e ↦ (err e, st')
          | ok d ↦ (ok d, publish svc (device_event d now) st')
        ]
      ]

  -- One round of the loop over the alerts.
  unfoldable pub raise_alert : Alert → State S P C → State S P C
  raise_alert a st =
      let r = o.add_alert a st.store in
      let st' = record st { store = r.1 } in if_ok r.0 (publish svc (alert_event a) st') st'

  unfoldable pub raise_alerts : List Alert → State S P C → State S P C
  raise_alerts [] st = st
  raise_alerts (a ∷ list) st = raise_alerts list (raise_alert a st)

  -- The part of `processTelemetry` between the storing of the sample and the alerts.
  unfoldable pub announce : Telemetry → State S P C → State S P C
  announce t st =
      let r = o.update_device_status t.device_id status_online t.timestamp st.store in
      publish svc (telemetry_event t)
        (cache_status svc t.device_id status_online t.timestamp (record st { store = r.1 }))

  unfoldable pub process_telemetry :
      (String → Float64 → String → Float64 → String)
      → (ℕ → AlertDraw)
      → Telemetry
      → State S P C
      → State S P C
  process_telemetry sprintf draws t st =
      let r = o.add_telemetry t st.store in
      let st' = record st { store = r.1 } in
      if_ok r.0 (raise_alerts (evaluate sprintf draws t svc.alerts) (announce t st')) st'

  unfoldable pub reconcile_device : Time → Device → State S P C → State S P C
  reconcile_device now d st =
      let r = o.update_device_status d.id status_offline zero_time st.store in
      let st' = record st { store = r.1 } in
      if goes_offline svc now d
      then if_ok r.0
          (publish svc (offline_event d now) (cache_status svc d.id status_offline zero_time st'))
          st'
      else st

  unfoldable pub reconcile_devices : Time → List Device → State S P C → State S P C
  reconcile_devices now [] st = st
  reconcile_devices now (d ∷ ds) st = reconcile_devices now ds (reconcile_device now d st)

  unfoldable pub reconcile_statuses : Time → State S P C → State S P C
  reconcile_statuses now st = reconcile_devices now (o.list_devices st.store) st
