-- ===== src/Store/Mongo/Shelf/Tests.antt =====
-- Runs of internal/store/mongo.go on a small server.
use iot_api.Common.{
  Bool, ℕ, ◌≤◌, ◌≡◌, refl, ◌⊎◌, true, ◌==◌, not, if◌then◌else◌, List, [], ◌∷◌, length, filter_b, In,
  String, ok, err, not_found,
}
use iot_api.Common.Int.{pos, ltb_ℤ}
use iot_api.Common.Sort.{sort_slice}
use iot_api.GoTime.{zero_time, is_zero}
use iot_api.Models.{Device, Telemetry, status_unknown}
use iot_api.Store.Mongo.{MongoStore, MongoConfig, with_defaults, ensure_indexes, new_mongo_store}
use iot_api.Store.Mongo.Collections.{done, Stored}
use iot_api.Store.Mongo.Documents.{
  TelemetryDoc, device_to_doc, doc_to_device, telemetry_to_doc, doc_to_telemetry,
}
use iot_api.Store.Mongo.Devices.{create_device, get_device, delete_device}
use iot_api.Store.Mongo.Telemetry.{add_telemetry, trim_history, get_telemetry}
use iot_api.Store.Mongo.Shelf.{Shelf, shelf_driver, shelf_server}
use iot_api.Store.Mongo.Lifecycle.{id_key, IsIndexed, delete_device-get}
use iot_api.Store.Mongo.Indexes.{HasIndexes, new_mongo_store-HasIndexes}
use iot_api.Store.Mongo.Series.{Wanted, samples, InOrder, get_telemetry-newest}

abbrev empty : {D : Type 0} → Shelf D
empty = record { documents = []; keys = []; next = 0 }

abbrev collections : String → MongoConfig → MongoStore Shelf
collections name cfg = record {
  devices = empty;
  telemetry = empty;
  alerts = empty;
  users = empty;
  refresh = empty;
  max_history = pos 0;
  timeout = pos 0;
}

abbrev config : MongoConfig
config = record { uri = "mongodb://db"; database = ""; max_history = pos 2; timeout = pos 0 }

abbrev pub opened : MongoStore Shelf
opened = record (collections "iot" config) {
  devices = record empty { keys = id_key ∷ [] };
  users = record empty { keys = (λ u. u.id) ∷ (λ u. u.username) ∷ [] };
  refresh = record empty { keys = (λ t. t.token_hash) ∷ [] };
  max_history = pos 2;
  timeout = pos 5000000000;
}

opens : new_mongo_store shelf_driver (λ uri. done tt) collections config ≡ ok opened
unfolding new_mongo_store ensure_indexes with_defaults
opens = refl

new_mongo_store-HasIndexes_example :
    HasIndexes shelf_driver shelf_server opened
    × (opened.max_history ≡ pos 2)
    × (ltb_ℤ (pos 0) opened.timeout ≡ true)
unfolding shelf_server
new_mongo_store-HasIndexes_example =
    new_mongo_store-HasIndexes shelf_driver shelf_server (λ uri. done tt) collections config opened
      (λ name cfg. (refl, refl, refl)) opens

abbrev pump : Device
pump = record {
  id = "pump";
  name = "Pump";
  device_type = "actuator";
  location = "cellar";
  metadata = [];
  status = status_unknown;
  registered_at = 5;
  last_seen_at = zero_time;
}

abbrev stocked : MongoStore Shelf
stocked = (create_device shelf_driver pump opened).1

stocked-IsIndexed : IsIndexed shelf_driver shelf_server stocked.devices
unfolding create_device device_to_doc shelf_server
stocked-IsIndexed = (((tt, tt), tt), refl)

registered : get_device shelf_driver "pump" stocked ≡ ok pump
unfolding create_device get_device device_to_doc doc_to_device
registered = refl

delete_device-get_example :
    let r = delete_device shelf_driver "pump" stocked in
    (r.0 ≡ ok tt)
    × ((j : String)
        → get_device shelf_driver j r.1
          ≡ (if "pump" == j then err not_found else get_device shelf_driver j stocked))
    × (r.1.telemetry.documents
        ≡ filter_b (λ x. not (x.document.device_id == "pump")) stocked.telemetry.documents)
    × (r.1.alerts.documents
        ≡ filter_b (λ x. not (x.document.device_id == "pump")) stocked.alerts.documents)
    × IsIndexed shelf_driver shelf_server r.1.devices
unfolding shelf_server
delete_device-get_example =
    delete_device-get shelf_driver shelf_server stocked stocked-IsIndexed "pump" pump registered

abbrev at : ℕ → Telemetry
at t = record { device_id = "pump"; timestamp = t; metrics = [] }

abbrev sampled : MongoStore Shelf
sampled = (add_telemetry shelf_driver (at 7) (add_telemetry shelf_driver (at 9) stocked).1).1

-- The history holds two samples, so the oldest of three is trimmed.
trimmed :
    get_telemetry shelf_driver "pump" zero_time
      (pos 0)
      (add_telemetry shelf_driver (at 8) sampled).1
    ≡ at 8 ∷ at 9 ∷ []
unfolding create_device add_telemetry get_telemetry sort_slice device_to_doc trim_history
    telemetry_to_doc is_zero doc_to_telemetry
trimmed = refl

get_telemetry-newest_example :
    (docs : List (Stored TelemetryDoc)) × (get_telemetry shelf_driver "pump" 3 (pos 1) sampled
      ≡ samples docs)
    × InOrder docs
    × (length docs ≤ 1)
    × ((q : Stored TelemetryDoc → Bool)
        → length (filter_b q docs) ≤ length (filter_b q sampled.telemetry.documents))
    × ((x : Stored TelemetryDoc)
        → In x docs
        → In x sampled.telemetry.documents × Wanted shelf_driver "pump" 3 x)
    × ((x : Stored TelemetryDoc)
        → In x sampled.telemetry.documents
        → Wanted shelf_driver "pump" 3 x
        → In x docs
          ⊎ ((length docs ≡ 1)
              × ((y : Stored TelemetryDoc)
                  → In y docs
                  → x.document.timestamp ≤ y.document.timestamp)))
unfolding shelf_server
get_telemetry-newest_example = get_telemetry-newest shelf_driver shelf_server "pump" 3 sampled 0
