-- ===== src/Store/Memory/Tests.antt =====
-- Runs of the memory store of internal/store/store.go on small examples.

use iot_api.Common.{
  ◌↔◌, ◌⊎◌, ◌≤◌, Bool, true, ◌≡◌, ◌≢◌, refl, none, some, List, [], ◌∷◌, ◌++◌, map, filter_b, ◌==◌,
  arith,
}
use iot_api.Common.Int.{pos}
use iot_api.Common.GoMap.{lookup, insert}
use iot_api.GoTime.{Time, zero_time}
use iot_api.Models.{Device, Telemetry, status_unknown}
use iot_api.Store.Memory.{
  MemoryStore, new_memory_store, create_device, add_telemetry, get_telemetry,
}
use iot_api.Store.Memory.Calls.{Call, creates, reports, call, run}
use iot_api.Store.Memory.Valid.{IsValid}
use iot_api.Store.Memory.Valid.Runs.{run-IsValid}
use iot_api.Store.Memory.Window.{Latest}
use iot_api.Store.Memory.History.{series, get_telemetry-reports}

abbrev pump : Device
pump = record {
  id = "pump";
  name = "Pump";
  device_type = "actuator";
  location = "cellar";
  metadata = [];
  status = status_unknown;
  registered_at = zero_time;
  last_seen_at = zero_time;
}

abbrev sample : Time → Telemetry
sample at = record { device_id = "pump"; timestamp = at; metrics = [] }

-- A store that holds one device, with room for two samples of each.
abbrev setup : List Call
setup = creates pump ∷ reports (sample 5) ∷ []

abbrev one_device : MemoryStore
one_device = run setup (new_memory_store (pos 2))

run-IsValid_example : IsValid (run setup (new_memory_store (pos 2)))
run-IsValid_example = run-IsValid (pos 2) setup

found : lookup "pump" one_device.devices ≡ some pump
unfolding run call create_device add_telemetry lookup insert
found = refl

registered : lookup "pump" one_device.devices ≢ none
registered = λ e. ground (arith, found, e)

get_telemetry-reports_example :
    (wanted : Telemetry → Bool) × (kept : List Telemetry) × ((t : Telemetry)
      → (wanted t ≡ true) ↔ ((6 ≡ zero_time) ⊎ (6 ≤ t.timestamp)))
    × Latest one_device.max_history
        (series "pump" one_device
          ++ filter_b (λ t. t.device_id == "pump") (sample 7 ∷ sample 6 ∷ []))
        kept
    × Latest
        (pos 1)
        (filter_b wanted kept)
        (get_telemetry "pump" 6 (pos 1) (run (map reports (sample 7 ∷ sample 6 ∷ [])) one_device))
get_telemetry-reports_example =
    get_telemetry-reports "pump" 6 (pos 1) (sample 7 ∷ sample 6 ∷ []) one_device run-IsValid_example
      registered
