-- ===== src/Store/Mongo/Telemetry.antt =====
-- internal/store/mongo.go: the telemetry and its bounded history.
use mathlib.Core.List.{map, reverse}
use iot_api.Common.{
  ℕ, zero, suc, ◌-◌, String, Bool, ◌&&◌, ◌||◌, ◌==◌, nat_eq, leb, if◌then◌else◌, List, [], ◌∷◌, ok,
  err, Exec,
}
use iot_api.Common.Int.{ℤ, pos, negsuc}
use iot_api.GoTime.{Time, is_zero}
use iot_api.Models.{Telemetry}
use iot_api.Store.{Store}
use iot_api.Store.Mongo.{MongoStore}
use iot_api.Store.Mongo.Collections.{
  Reply, done, fails, Stored, ascending, descending, Driver, result_of, find_result, decoded_or_nil,
  matching,
}
use iot_api.Store.Mongo.Documents.{TelemetryDoc, telemetry_to_doc, doc_to_telemetry}
use iot_api.Store.Mongo.Devices.{
  has_id, create_device, get_device, list_devices, update_device, update_device_status,
  delete_device, add_alert, list_alerts,
}

-- `bson.M{"device_id": deviceID}`.
abbrev pub sample_of : String → TelemetryDoc → Bool
sample_of id t = t.device_id == id

-- `bson.M{"_id": bson.M{"$in": ids}}`.
abbrev pub has_object_id : {D : Type 0} → List ℕ → Stored D → Bool
has_object_id [] x = Bool.false
has_object_id (i ∷ ids) x = nat_eq i x.object_id || has_object_id ids x

module _ {Col : Type 0 → Type 0} (driver : Driver Col) where
  -- With `"timestamp": bson.M{"$gte": since}`, unless the time is zero.
  abbrev pub sample_since : String → Time → TelemetryDoc → Bool
  sample_since id since t =
      t.device_id == id && (is_zero since || leb (driver.date_time since) t.timestamp)

  -- `if len(ids) > 0`.
  abbrev pub delete_ids : List ℕ → Col TelemetryDoc → Col TelemetryDoc
  delete_ids [] c = c
  delete_ids (i ∷ ids) c = (driver.delete_many (has_object_id (i ∷ ids)) c).1

  -- The part of `trimHistory` behind the count.
  abbrev pub trim_excess : ℕ → String → Reply ℕ → Col TelemetryDoc → Col TelemetryDoc
  trim_excess cap id (fails e) c = c
  trim_excess cap id (done count) c =
      if leb count cap
      then c
      else delete_ids
          (map (λ x. x.object_id)
            (decoded_or_nil
              (driver.find (matching (sample_of id)) (λ t. t.timestamp) ascending (count - cap) c)))
          c

  unfoldable pub trim_history : ℤ → String → Col TelemetryDoc → Col TelemetryDoc
  trim_history (negsuc n) id c = c
  trim_history (pos zero) id c = c
  trim_history (pos (suc n)) id c =
      trim_excess (suc n) id (driver.count_documents (matching (sample_of id)) c) c

  unfoldable pub add_telemetry : Telemetry → Exec (MongoStore Col) (Unit {0})
  add_telemetry t s =
      elim (find_result (driver.find_one (matching (has_id t.device_id)) s.devices)) [
        | err e ↦ (err e, s)
        | ok _ ↦
            let r = driver.insert_one (telemetry_to_doc t) s.telemetry in
            elim (result_of r.0) [
              | err e ↦ (err e, record s { telemetry = r.1 })
              | ok _ ↦ (ok tt, record s { telemetry = trim_history s.max_history t.device_id r.1 })
            ]
      ]

  -- With a limit the newest come first, and are reversed.
  abbrev pub newest : String → Time → ℤ → Col TelemetryDoc → List (Stored TelemetryDoc)
  newest id since (pos (suc n)) c = reverse (
      decoded_or_nil
        (driver.find (matching (sample_since id since)) (λ t. t.timestamp) descending (suc n) c))
  newest id since (pos zero) c =
      decoded_or_nil
        (driver.find (matching (sample_since id since)) (λ t. t.timestamp) ascending 0 c)
  newest id since (negsuc n) c =
      decoded_or_nil
        (driver.find (matching (sample_since id since)) (λ t. t.timestamp) ascending 0 c)

  unfoldable pub get_telemetry : String → Time → ℤ → MongoStore Col → List Telemetry
  get_telemetry id since limit s =
      map (λ x. doc_to_telemetry x.document) (newest id since limit s.telemetry)

  -- `MongoStore` as a `Store`.
  abbrev pub mongo_store : Store (MongoStore Col)
  mongo_store = record {
    create_device = create_device driver;
    get_device = get_device driver;
    list_devices = list_devices driver;
    update_device = update_device driver;
    update_device_status = update_device_status driver;
    delete_device = delete_device driver;
    add_telemetry = add_telemetry;
    get_telemetry = get_telemetry;
    add_alert = add_alert driver;
    list_alerts = list_alerts driver;
  }
