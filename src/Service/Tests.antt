-- ===== src/Service/Tests.antt =====
-- Runs of internal/service/service.go on the memory store.
use iot_api.Common.{arith, String, In, refl, ◌≡◌, [], ◌∷◌, map, if◌then◌else◌, ◌==◌, ok}
use iot_api.Common.Int.{pos}
use iot_api.GoTime.{sub, is_zero}
use iot_api.Models.{status_online, status_offline}
use iot_api.Store.Changes.{with_status}
use iot_api.Store.Memory.{list_devices, memory_store, get_device}
use iot_api.Store.Memory.Calls.{creates}
use iot_api.Store.Memory.Valid.{IsValid}
use iot_api.Store.Memory.Valid.Runs.{run-IsValid}
use iot_api.Store.Memory.Lifecycle.{memory_store-StoreLaws, list_devices_lem}
use iot_api.Alerts.{evaluate}
use iot_api.Service.{
  telemetry_event, alert_event, process_telemetry, goes_offline, reconcile_statuses,
  reconcile_devices,
}
use iot_api.Service.Example.{log, service, pump, before, held, sample, sprintf, draws}
use iot_api.Service.Ingestion.{publish_all, process_telemetry_lem}
use iot_api.Service.Race.{reconcile_devices-stale}
use iot_api.Service.Offline.{IsGone, reconcile_statuses_lem}

before-IsValid : IsValid before.store
before-IsValid = run-IsValid (pos 2) (creates pump ∷ [])

process_telemetry_lem_example :
    let st' = process_telemetry memory_store service sprintf draws (sample "pump") before in
    ((j : String)
      → get_device j st'.store ≡ (
          if "pump" == j then ok (with_status status_online 8 pump) else get_device j before.store))
    × (st'.published
        ≡ publish_all log
            (telemetry_event (sample "pump")
              ∷ map alert_event (evaluate sprintf draws (sample "pump") service.alerts))
            [])
process_telemetry_lem_example =
    process_telemetry_lem memory_store memory_store-StoreLaws service sprintf draws (sample "pump")
      before pump held

reconcile_statuses_lem_example :
    let after = get_device "pump" (reconcile_statuses memory_store service 50 before).store in
    (IsGone service 50 30 pump → after ≡ ok (record pump { status = status_offline }))
    × (¬ IsGone service 50 30 pump → after ≡ ok pump)
reconcile_statuses_lem_example =
    reconcile_statuses_lem service 50 30 "pump" pump before refl (omega arith) before-IsValid held

listed : In pump (list_devices before.store)
listed = ((list_devices_lem before.store before-IsValid).2 pump).1 held

reconcile_devices-stale_example :
    get_device "pump"
      (reconcile_devices memory_store service 50
        (list_devices before.store)
        (process_telemetry memory_store service sprintf draws (sample "pump") before)).store
    ≡ ok (record pump { status = status_offline; last_seen_at = 8 })
unfolding goes_offline sub is_zero
reconcile_devices-stale_example =
    reconcile_devices-stale memory_store memory_store-StoreLaws service sprintf draws 50
      (sample "pump") pump before held listed refl refl refl
