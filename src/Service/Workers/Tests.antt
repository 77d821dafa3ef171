-- ===== src/Service/Workers/Tests.antt =====
-- Two workers of internal/service/service.go process two samples of one device. The newer sample is
-- marked first.
use iot_api.Common.{
  String, Error, err, if◌then◌else◌, ◌≤◌, ◌≡◌, refl, ◌⊎◌, false, List, [], ◌∷◌, map, All, In, ok,
  arith, ◌==◌,
}
use iot_api.Common.GoMap.{lookup, insert}
use iot_api.GoTime.{is_zero}
use iot_api.Models.{Device, Event, status_online}
use iot_api.Store.Memory.{
  memory_store, get_device, add_telemetry, update_device_status, add_alert, create_device,
}
use iot_api.Store.Memory.Calls.{call, run}
use iot_api.Store.Memory.Lifecycle.{memory_store-StoreLaws}
use iot_api.Store.Changes.{with_status}
use iot_api.Alerts
use iot_api.Alerts.{evaluate}
use iot_api.Float64
use iot_api.Service.{telemetry_event, alert_event}
use iot_api.Service.Example.{service, pump, before, held, sample, sprintf, draws}
use iot_api.Service.Ingestion.{publish_all}
use iot_api.Service.Workers.{
  Work, received, returned, move, moves, System, moved, Step, Run, over, first,
}
use iot_api.Service.Workers.Alone.{moves-Returned}
use iot_api.Service.Workers.Ends.{Returned, run_length, total_cost, run-Returns}
use iot_api.Service.Workers.Calls.{events}
use iot_api.Service.Workers.Merged.{Merge, run-Merge}
use iot_api.Service.Workers.Statuses.{run-Marked}

abbrev older : Work
older = record { sample = sample "pump"; draws = draws }

abbrev newer : Work
newer = record {
  sample = record { device_id = "pump"; timestamp = 9; metrics = [] };
  draws = draws;
}

moves-Returned_example :
    let r = moves memory_store service sprintf 7 (received older) before in
    (r.0 ≡ returned)
    × ((d : Device)
        → get_device "pump" before.store ≡ ok d
        → ((j : String)
            → get_device j r.1.store ≡ (
                if "pump" == j
                then ok (with_status status_online 8 d)
                else get_device j before.store))
          × (r.1.published
              ≡ publish_all service.publisher
                  (telemetry_event (sample "pump")
                    ∷ map alert_event (evaluate sprintf draws (sample "pump") service.alerts))
                  before.published))
    × ((e : Error)
        → get_device "pump" before.store ≡ err e
        → (r.1.published ≡ before.published)
          × (r.1.cached ≡ before.cached)
          × ((j : String) → get_device j r.1.store ≡ get_device j before.store))
unfolding evaluate Alerts.evaluate_rules lookup Alerts.breached Float64.lt Float64.is_nan
    Float64.magnitude Float64.rank Float64.is_negative
moves-Returned_example =
    moves-Returned memory_store service sprintf memory_store-StoreLaws 7 older before (omega arith)

abbrev start : System memory_store service sprintf
start = record { stages = received older ∷ received newer ∷ []; state = before }

finished :
    (last : System memory_store service sprintf) × Run memory_store service sprintf last start
    × All Returned last.stages
unfolding move evaluate add_telemetry update_device_status add_alert create_device call run insert
    Alerts.evaluate_rules lookup Alerts.breached Float64.lt Float64.is_nan Float64.magnitude
    Float64.rank Float64.is_negative
finished = (
  _,
  first (moved [] _ (_ ∷ []) (λ h. cc) refl) (
      first (moved (_ ∷ []) _ [] (λ h. cc) refl) (
        first (moved (_ ∷ []) _ [] (λ h. cc) refl) (
          first (moved [] _ (_ ∷ []) (λ h. cc) refl) (
            first (moved [] _ (_ ∷ []) (λ h. cc) refl) (
              first (moved (_ ∷ []) _ [] (λ h. cc) refl) (
                first (moved (_ ∷ []) _ [] (λ h. cc) refl) (
                  first (moved [] _ (_ ∷ []) (λ h. cc) refl) (
                    first (moved (_ ∷ []) _ [] (λ h. cc) refl) (
                      first (moved [] _ (_ ∷ []) (λ h. cc) refl) (
                        first (moved [] _ (_ ∷ []) (λ h. cc) refl)
                          (first (moved [] _ (_ ∷ []) (λ h. cc) refl) over))))))))))),
  (refl, (refl, tt)),
)

run-Returns_example :
    (run_length memory_store service sprintf finished.1
      ≤ total_cost memory_store service sprintf start.stages)
    × (All Returned finished.0.stages
        ⊎ ((y : System memory_store service sprintf) × Step memory_store service sprintf finished.0
              y))
run-Returns_example = run-Returns memory_store service sprintf finished.0 start finished.1

run-Merge_example :
    (es : List Event) × Merge (map (events service sprintf) (older ∷ newer ∷ [])) es
    × (finished.0.state.published ≡ publish_all service.publisher es [])
run-Merge_example =
    run-Merge memory_store memory_store-StoreLaws service sprintf (older ∷ newer ∷ []) before
      finished.0 finished.1 ((pump, held), ((pump, held), tt)) finished.2

run-Marked_example :
    ((w : Work) × In w (older ∷ newer ∷ [])
      × (w.sample.device_id ≡ "pump")
      × (get_device "pump" finished.0.state.store
          ≡ ok (record pump { status = status_online; last_seen_at = w.sample.timestamp })))
    ⊎ (All (λ w. (w.sample.device_id == "pump") ≡ false) (older ∷ newer ∷ [])
        × (get_device "pump" finished.0.state.store ≡ ok pump))
unfolding is_zero
run-Marked_example =
    run-Marked memory_store memory_store-StoreLaws service sprintf (older ∷ newer ∷ []) before
      finished.0 finished.1 (refl, (refl, tt)) finished.2 "pump" pump held

-- The older sample was marked last, and its time stays.
marked_late :
    get_device "pump" finished.0.state.store
    ≡ ok (record pump { status = status_online; last_seen_at = 8 })
unfolding finished move evaluate add_telemetry update_device_status add_alert create_device call run
    insert lookup get_device Alerts.evaluate_rules Alerts.breached Float64.lt Float64.is_nan
    Float64.magnitude Float64.rank Float64.is_negative is_zero
marked_late = refl
