-- ===== src/Service/Queries.antt =====
-- internal/service/service.go: the methods that pass a call on to the store or the hub, and the
-- loop of the status reconciler.
use iot_api.Common.{ℕ, ◌*◌, String, Option, none, some, List, [], ◌∷◌, if◌then◌else◌}
use iot_api.Common.Int.{ℤ, pos, leb_ℤ}
use iot_api.GoTime.{Time, Duration, second}
use iot_api.Models.{Device, Telemetry, Alert}
use iot_api.Store.{Store}
use iot_api.Hub
use iot_api.Hub.{Hub}
use iot_api.Service.{Service, State, reconcile_statuses}

-- The hub is part of what the service publishes to: it is the publisher itself, or receives what
-- the event bus delivers.
pub record HubAccess (P : Type 0) : Type 0 where
  pub hub : P → Hub
  pub set_hub : Hub → P → P

module _ {S P C : Type 0} (o : Store S) where
  unfoldable pub list_devices : State S P C → List Device
  list_devices st = o.list_devices st.store

  unfoldable pub get_telemetry : String → Time → ℤ → State S P C → List Telemetry
  get_telemetry id since limit st = o.get_telemetry id since limit st.store

  unfoldable pub get_telemetry_since : String → Time → State S P C → List Telemetry
  get_telemetry_since id since st = o.get_telemetry id since (pos 0) st.store

  unfoldable pub list_alerts : String → State S P C → List Alert
  list_alerts id st = o.list_alerts id st.store

module _ {S P C : Type 0} (access : HubAccess P) where
  unfoldable pub subscribe : State S P C → State S P C × ℕ
  subscribe st =
      let (hub, ch) = Hub.subscribe (access.hub st.published) in
      (record st { published = access.set_hub hub st.published }, ch)

  -- `none` is a panic.
  unfoldable pub unsubscribe : ℕ → State S P C → Option (State S P C)
  unsubscribe ch st = elim (Hub.unsubscribe ch (access.hub st.published)) [
    | none ↦ none
    | some hub ↦ some (record st { published = access.set_hub hub st.published })
  ]

-- What the select of the reconciler takes: the end of the context, or a tick, at a time.
pub data Signal : Type 0 where
  done : Signal
  tick : Time → Signal

-- An interval that is not positive means ten seconds.
unfoldable pub reconciler_interval : Duration → Duration
reconciler_interval interval = if leb_ℤ interval (pos 0) then pos (10 * second) else interval

module _ {S P C : Type 0} (o : Store S) (svc : Service P C) where
  -- The loop of `RunStatusReconciler`, on the cases that its select takes.
  unfoldable pub run_status_reconciler : List Signal → State S P C → State S P C
  run_status_reconciler [] st = st
  run_status_reconciler (done ∷ signals) st = st
  run_status_reconciler (tick now ∷ signals) st =
      run_status_reconciler signals (reconcile_statuses o svc now st)
