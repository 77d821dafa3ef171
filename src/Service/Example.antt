-- ===== src/Service/Example.antt =====
-- A small installation of internal/service/service.go for the tests: one device in the memory store, a
-- publisher that is a log with the newest event first, one rule, and no cache.
use iot_api.Common.{ℕ, String, ◌≡◌, refl, none, List, [], ◌∷◌, ok}
use iot_api.Common.Int.{pos}
use iot_api.Common.GoMap.{lookup, insert}
use iot_api.Float64.{Float64}
use iot_api.Models.{Device, Telemetry, Event, status_online}
use iot_api.Store.Memory.{MemoryStore, new_memory_store, create_device, get_device}
use iot_api.Store.Memory.Calls.{creates, call, run}
use iot_api.Alerts.{AlertDraw, new_engine}
use iot_api.Service.{Service, State, Publisher}

abbrev pub log : Publisher (List Event)
log = record { broadcast = λ e es. e ∷ es }

abbrev pub service : Service (List Event) (Unit {0})
service = record {
  alerts = new_engine (
      record { metric = "t"; operator = ">"; threshold = record { bits = 0 }; severity = "warning" }
      ∷ []);
  publisher = log;
  cache = none;
  offline_after = pos 30;
}

abbrev pub pump : Device
pump = record {
  id = "pump";
  name = "Pump";
  device_type = "actuator";
  location = "cellar";
  metadata = [];
  status = status_online;
  registered_at = 5;
  last_seen_at = 7;
}

abbrev pub before : State MemoryStore (List Event) (Unit {0})
before = record {
  store = run (creates pump ∷ []) (new_memory_store (pos 2));
  published = [];
  cached = tt;
}

pub held : get_device "pump" before.store ≡ ok pump
unfolding run call create_device get_device lookup insert
held = refl

abbrev pub sample : String → Telemetry
sample id = record { device_id = id; timestamp = 8; metrics = ("t", record { bits = 1 }) ∷ [] }

abbrev pub sprintf : String → Float64 → String → Float64 → String
sprintf metric value operator threshold = metric

abbrev pub draws : ℕ → AlertDraw
draws n = record { uuid = "a"; now = n }
