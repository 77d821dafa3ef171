-- ===== src/Service/Reconciliation.antt =====
-- What `ReconcileStatuses` of internal/service/service.go does, over any store that keeps its
-- contract.
use iot_api.Common.{
  String, ◌≡◌, refl, ap, ◌∙◌, Bool, false, ◌&&◌, ◌||◌, List, [], ◌∷◌, arith, if◌then◌else◌, ◌==◌,
  Result, ok, err, Bool-cases, inl, inr,
}
use iot_api.GoTime.{Time, zero_time, is_zero}
use iot_api.Models.{Device, status_offline}
use iot_api.Store.{Store}
use iot_api.Store.Changes.{with_status}
use iot_api.Store.Laws.{StoreLaws, map_ok}
use iot_api.Service.{
  Service, State, publish, offline_event, if_ok, cache_status, goes_offline, reconcile_device,
  reconcile_devices, reconcile_statuses,
}

-- The device with its status set to offline; the time when it was last seen stays.
abbrev pub offline : Device → Device
offline d = record d { status = status_offline }

with_status-offline :
    (r : Result Device) → map_ok (with_status status_offline zero_time) r ≡ map_ok offline r
unfolding is_zero
with_status-offline (ok d) = refl
with_status-offline (err e) = refl

offline_twice : (r : Result Device) → map_ok offline (map_ok offline r) ≡ map_ok offline r
offline_twice (ok d) = refl
offline_twice (err e) = refl

-- Whether or not the update failed, the store is what it left.
store-if_ok :
    {S P C : Type 0} (r : Result (Unit {0})) (done failed : State S P C)
    → done.store ≡ failed.store
    → (if_ok r done failed).store ≡ failed.store
store-if_ok (ok _) done failed h = h
store-if_ok (err _) done failed h = refl

-- One of the devices has this identifier and is found to have gone offline.
abbrev pub some_offline : {P C : Type 0} → Service P C → Time → String → List Device → Bool
some_offline svc now j [] = false
some_offline svc now j (d ∷ ds) =
    let rest = some_offline svc now j ds in goes_offline svc now d && d.id == j || rest

module _ {S P C : Type 0} (o : Store S) (laws : StoreLaws o) (svc : Service P C) where
  reconcile_device-found :
      (now : Time) (d : Device) (j : String) (st : State S P C)
      → o.get_device j (reconcile_device o svc now d st).store ≡ (
          if goes_offline svc now d && d.id == j
          then map_ok offline (o.get_device j st.store)
          else o.get_device j st.store)
  unfolding reconcile_device
  reconcile_device-found now d j st =
      let r = o.update_device_status d.id status_offline zero_time st.store in
      let st' : State S P C = record st { store = r.1 } in
      let done =
        publish svc (offline_event d now) (cache_status svc d.id status_offline zero_time st') in
      elim (Bool-cases (goes_offline svc now d)) [
        | inr e ↦ rw e refl
        | inl e ↦ rw e (
            ap (o.get_device j) (store-if_ok r.0 done st' refl)
            ∙ laws.get-status d.id status_offline zero_time j st.store
            ∙ rw (with_status-offline (o.get_device j st.store)) refl)
      ]

  pub reconcile_devices-found :
      (now : Time) (j : String) (ds : List Device) (st : State S P C)
      → o.get_device j (reconcile_devices o svc now ds st).store ≡ (
          if some_offline svc now j ds
          then map_ok offline (o.get_device j st.store)
          else o.get_device j st.store)
  unfolding reconcile_devices
  reconcile_devices-found now j [] st = refl
  reconcile_devices-found now j (d ∷ ds) st = ground (
    arith,
    reconcile_devices-found now j ds (reconcile_device o svc now d st),
    reconcile_device-found now d j st,
    offline_twice (o.get_device j st.store),
  )

  -- `ReconcileStatuses` marks exactly those listed devices offline that were seen, are not offline
  -- yet and were last seen longer ago than the window. It changes nothing else of them, and no other
  -- device.
  pub get-reconcile_statuses :
      (now : Time) (j : String) (st : State S P C)
      → o.get_device j (reconcile_statuses o svc now st).store ≡ (
          if some_offline svc now j (o.list_devices st.store)
          then map_ok offline (o.get_device j st.store)
          else o.get_device j st.store)
  unfolding reconcile_statuses
  get-reconcile_statuses now j st = reconcile_devices-found now j (o.list_devices st.store) st
