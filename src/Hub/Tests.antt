-- ===== src/Hub/Tests.antt =====
-- Runs of the event hub of internal/realtime/hub.go on small examples.
use iot_api.Common.{ℕ, ◌≡◌, some, List, [], ◌∷◌, false}
use iot_api.Common.Int.{pos}
use iot_api.Models.{Event, status_payload}
use iot_api.Hub.{Channel, Hub, new_hub}
use iot_api.Hub.Invariant.{IsOpen}
use iot_api.Hub.Delivery.{Call, subscribes, unsubscribes, broadcasts, run, run-IsOpen}

abbrev event : ℕ → Event
event at = record {
  event_type = "status";
  device_id = "pump";
  payload = status_payload [];
  timestamp = at;
}

abbrev no_channel : ℕ → Channel
no_channel ch = record { buffer = []; capacity = 0; closed = false }

abbrev calls : List Call
calls =
    subscribes ∷ broadcasts (event 1) ∷ unsubscribes 0 ∷ broadcasts (event 2) ∷ unsubscribes 0 ∷ []

run-IsOpen_example : (h : Hub) × (run calls (new_hub (pos 1) no_channel) ≡ some h) × IsOpen h
run-IsOpen_example = run-IsOpen (pos 1) no_channel calls
