-- ===== src/Service/Workers/Alone.antt =====
-- A worker of internal/service/service.go that nobody interrupts.
use iot_api.Common.{
  ℕ, zero, suc, ◌+◌, ◌*◌, ◌≤◌, ◌≡◌, refl, String, List, [], ◌∷◌, arith, length, Result-cases, inl,
  inr, Error, ok, err, map, ◌==◌, if◌then◌else◌,
}
use iot_api.Float64.{Float64}
use iot_api.Models.{Alert, Device, status_online}
use iot_api.Store.{Store}
use iot_api.Store.Changes.{with_status}
use iot_api.Store.Laws.{StoreLaws}
use iot_api.Alerts.{evaluate}
use iot_api.Service.Ingestion.{publish_all, process_telemetry_lem, process_telemetry-refused}
use iot_api.Service.{
  Service, State, telemetry_event, alert_event, raise_alert, raise_alerts, announce,
  process_telemetry,
}
use iot_api.Service.Workers.{Work, received, alerting, returned, move, moves}

module _ {S P C : Type 0} (o : Store S) (svc : Service P C)
    (sprintf : String → Float64 → String → Float64 → String) where
  moves-returned : (n : ℕ) (st : State S P C) → moves o svc sprintf n returned st ≡ (returned, st)
  unfolding moves move
  moves-returned zero st = refl
  moves-returned (suc n) st = moves-returned n st

  moves-alerting :
      (n : ℕ) (alerts : List Alert) (st : State S P C)
      → 2 * length alerts + 1 ≤ n
      → moves o svc sprintf n (alerting alerts) st ≡ (returned, raise_alerts o svc alerts st)
  unfolding moves move raise_alerts raise_alert
  moves-alerting zero alerts st h = absurd (omega arith)
  moves-alerting (suc n) [] st h = moves-returned n st
  moves-alerting (suc zero) (a ∷ alerts) st h = absurd (omega arith)
  moves-alerting (suc (suc n)) (a ∷ alerts) st h = elim (Result-cases (o.add_alert a st.store).0) [
    | inl (_, e) ↦ rw e (moves-alerting n alerts _ (omega (arith, h)))
    | inr (_, e) ↦ rw e (moves-alerting (suc n) alerts _ (omega (arith, h)))
  ]

  -- A worker that nobody interrupts does what `processTelemetry` does as a whole, and returns, once
  -- it has made five moves and two for each alert that the sample raises, or more.
  moves-process_telemetry :
      (n : ℕ) (w : Work) (st : State S P C)
      → 2 * length (evaluate sprintf w.draws w.sample svc.alerts) + 5 ≤ n
      → moves o svc sprintf n (received w) st
        ≡ (returned, process_telemetry o svc sprintf w.draws w.sample st)
  unfolding moves move process_telemetry announce
  moves-process_telemetry zero w st h = absurd (omega arith)
  moves-process_telemetry (suc zero) w st h = absurd (omega arith)
  moves-process_telemetry (suc (suc zero)) w st h = absurd (omega arith)
  moves-process_telemetry (suc (suc (suc zero))) w st h = absurd (omega arith)
  moves-process_telemetry (suc (suc (suc (suc n)))) w st h =
      elim (Result-cases (o.add_telemetry w.sample st.store).0) [
        | inl (_, e) ↦
            rw e
              (moves-alerting n (evaluate sprintf w.draws w.sample svc.alerts) _ (omega (arith, h)))
        | inr (_, e) ↦ rw e (moves-returned n _)
      ]

  -- Over a store that keeps its contract, a worker that nobody interrupts has returned once it has made
  -- five moves and two for each alert that its sample raises, or more. If the device of the sample was
  -- registered, it is then online and seen at the time of the sample if that is set, every other device
  -- is as it was, and what was published is the sample and then its alerts, in order. If looking the
  -- device up failed, nothing was published, the cache was not written, and every device is as it was.
  pub moves-Returned :
      StoreLaws o
      → (n : ℕ) (w : Work) (st : State S P C)
      → 2 * length (evaluate sprintf w.draws w.sample svc.alerts) + 5 ≤ n
      → let r = moves o svc sprintf n (received w) st in
        (r.0 ≡ returned)
        × ((d : Device)
            → o.get_device w.sample.device_id st.store ≡ ok d
            → ((j : String)
                → o.get_device j r.1.store ≡ (
                    if w.sample.device_id == j
                    then ok (with_status status_online w.sample.timestamp d)
                    else o.get_device j st.store))
              × (r.1.published
                  ≡ publish_all svc.publisher
                      (telemetry_event w.sample
                        ∷ map alert_event (evaluate sprintf w.draws w.sample svc.alerts))
                      st.published))
        × ((e : Error)
            → o.get_device w.sample.device_id st.store ≡ err e
            → (r.1.published ≡ st.published)
              × (r.1.cached ≡ st.cached)
              × ((j : String) → o.get_device j r.1.store ≡ o.get_device j st.store))
  moves-Returned laws n w st h = rw (moves-process_telemetry n w st h) (
    refl,
    process_telemetry_lem o laws svc sprintf w.draws w.sample st,
    process_telemetry-refused o laws svc sprintf w.draws w.sample st,
  )
