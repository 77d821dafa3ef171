-- ===== src/Service/Race.antt =====
-- A sample that is processed while `ReconcileStatuses` of internal/service/service.go is under way.
use iot_api.Common.{ℕ, String, ◌≡◌, refl, ap, ◌∙◌, true, false, eq_refl, ok, In}
use iot_api.Float64.{Float64}
use iot_api.GoTime.{Time, is_zero}
use iot_api.Models.{Device, Telemetry, status_offline, status_online}
use iot_api.Store.Changes.{with_status}
use iot_api.Store.{Store}
use iot_api.Store.Laws.{StoreLaws, map_ok}
use iot_api.Alerts.{AlertDraw}
use iot_api.Service.{Service, State, goes_offline, process_telemetry, reconcile_devices}
use iot_api.Service.Ingestion.{process_telemetry_lem}
use iot_api.Service.Reconciliation.{offline, reconcile_devices-found}
use iot_api.Service.Offline.{some_offline_complete}

module _ {S P C : Type 0} (o : Store S) (laws : StoreLaws o) (svc : Service P C)
    (sprintf : String → Float64 → String → Float64 → String) (draws : ℕ → AlertDraw) where
  -- Over a store that keeps its contract: let a reconciliation have listed the devices, and let one of
  -- them, that goes offline by the times in this list, report with a set time before the loop over
  -- the list is run. The loop marks the device offline all the same, seen at the time of its sample.
  pub reconcile_devices-stale :
      (now : Time) (t : Telemetry) (d : Device) (st : State S P C)
      → o.get_device t.device_id st.store ≡ ok d
      → In d (o.list_devices st.store)
      → d.id ≡ t.device_id
      → goes_offline svc now d ≡ true
      → is_zero t.timestamp ≡ false
      → let listed = o.list_devices st.store in
        o.get_device t.device_id
          (reconcile_devices o svc now listed (process_telemetry o svc sprintf draws t st)).store
        ≡ ok (record d { status = status_offline; last_seen_at = t.timestamp })
  reconcile_devices-stale now t d st found listed own gone timed =
      let st' = process_telemetry o svc sprintf draws t st in
      let reported : o.get_device t.device_id st'.store
          ≡ ok (with_status status_online t.timestamp d) =
        (process_telemetry_lem o laws svc sprintf draws t st d found).0 t.device_id
        ∙ rw (eq_refl t.device_id) refl in
      reconcile_devices-found o laws svc now t.device_id (o.list_devices st.store) st'
      ∙ rw (some_offline_complete svc now t.device_id d (o.list_devices st.store) listed gone own)
          (ap (map_ok offline) reported ∙ rw timed refl)
