-- ===== src/Service/Workers.antt =====
-- internal/service/service.go: `processTelemetry` as a worker executes it, one call of the store, of
-- the cache or of the publisher at a time, so that the workers of the pool interleave. Only the
-- workers move.
mod Calls
pub mod Alone
pub mod Merged
mod Marked
pub mod Statuses
mod Tests
pub mod Ends
use iot_api.Common.{ℕ, zero, suc, String, List, [], ◌∷◌, ◌++◌, ◌≡◌, ◌≢◌}
use iot_api.Float64.{Float64}
use iot_api.Models.{Telemetry, Alert, status_online}
use iot_api.Store.{Store}
use iot_api.Alerts.{AlertDraw, evaluate}
use iot_api.Service.{Service, State, if_ok, publish, cache_status, telemetry_event, alert_event}

-- The sample of a job, with what the alerts that it raises draw.
pub record Work : Type 0 where
  pub sample : Telemetry
  pub draws : ℕ → AlertDraw

-- Where a worker stands.
pub data Stage : Type 0 where
  -- In front of `AddTelemetry`.
  received : Work → Stage
  -- In front of `UpdateDeviceStatus`.
  stored : Work → Stage
  -- In front of `cacheStatus`.
  marked : Work → Stage
  -- In front of the publication of the sample.
  cached : Work → Stage
  -- In the loop, with the alerts that are left.
  alerting : List Alert → Stage
  -- In front of the publication of an alert.
  raised : Alert → List Alert → Stage
  returned : Stage

module _ {S P C : Type 0} (o : Store S) (svc : Service P C)
    (sprintf : String → Float64 → String → Float64 → String) where
  -- One call, and where the worker stands then.
  unfoldable pub move : Stage → State S P C → Stage × State S P C
  move (received w) st =
      let r = o.add_telemetry w.sample st.store in
      (if_ok r.0 (stored w) returned, record st { store = r.1 })
  move (stored w) st =
      let t = w.sample in
      (
        marked w,
        record st {
          store = (o.update_device_status t.device_id status_online t.timestamp st.store).1;
        },
      )
  move (marked w) st =
      (cached w, cache_status svc w.sample.device_id status_online w.sample.timestamp st)
  move (cached w) st = (
    alerting (evaluate sprintf w.draws w.sample svc.alerts),
    publish svc (telemetry_event w.sample) st,
  )
  move (alerting []) st = (returned, st)
  move (alerting (a ∷ alerts)) st =
      let r = o.add_alert a st.store in
      (if_ok r.0 (raised a alerts) (alerting alerts), record st { store = r.1 })
  move (raised a alerts) st = (alerting alerts, publish svc (alert_event a) st)
  move returned st = (returned, st)

  -- A worker that nobody interrupts, for a number of moves.
  pub moves : ℕ → Stage → State S P C → Stage × State S P C
  moves zero s st = (s, st)
  moves (suc n) s st = let r = move s st in moves n r.0 r.1

  -- The workers, each with its sample, over what they share.
  pub record System : Type 0 where
    pub stages : List Stage
    pub state : State S P C

  -- Any one of them that has not returned moves.
  pub data Step (x : System) : System → Type 0 where
    moved :
        (before : List Stage) (s : Stage) (after : List Stage)
        → s ≢ returned
        → x.stages ≡ before ++ s ∷ after
        → Step x
            (record { stages = before ++ (move s x.state).0 ∷ after; state = (move s x.state).1 })

  -- The runs that end in `last`, by the state in which they begin.
  pub data Run (last : System) : System → Type 0 where
    over : Run last last
    first : {x y : System} → Step x y → Run last y → Run last x
