-- ===== src/Store/Mongo/Devices.antt =====
-- internal/store/mongo.go: the devices and the alerts.
use mathlib.Core.List.{map}
use iot_api.Common.{String, Bool, ◌==◌, if◌then◌else◌, List, Result, ok, err, device_exists, Exec}
use iot_api.Common.GoMap.{GoMap}
use iot_api.GoTime.{Time, is_zero}
use iot_api.Models.{Device, DeviceStatus, Alert}
use iot_api.Store.Mongo.{MongoStore}
use iot_api.Store.Mongo.Collections.{
  Stored, ascending, Driver, result_of, result_or, count_result, decode_one, decoded_or_nil,
  everything, matching,
}
use iot_api.Store.Mongo.Documents.{
  DeviceDoc, AlertDoc, device_to_doc, doc_to_device, alert_to_doc, doc_to_alert,
}

-- `bson.M{"id": id}`, and `bson.M{"device_id": id}` on the alerts.
abbrev pub has_id : String → DeviceDoc → Bool
has_id id d = d.id == id

abbrev pub alert_of : String → AlertDoc → Bool
alert_of id a = a.device_id == id

-- The `$set` of `UpdateDevice`, and that of `UpdateDeviceStatus`.
abbrev pub set_description : String → String → String → GoMap String → DeviceDoc → DeviceDoc
set_description name device_type location metadata d = record d {
  name = name;
  device_type = device_type;
  location = location;
  metadata = metadata;
}

abbrev pub set_status : DeviceStatus → Time → DeviceDoc → DeviceDoc
set_status status seen d =
    if is_zero seen
    then record d { status = status }
    else record d { status = status; last_seen_at = seen }

abbrev pub doc_result : Result DeviceDoc → Result Device
doc_result (ok doc) = ok (doc_to_device doc)
doc_result (err e) = err e

abbrev pub alert_filter : String → Stored AlertDoc → Bool
alert_filter id = if id == "" then everything else matching (alert_of id)

module _ {Col : Type 0 → Type 0} (driver : Driver Col) where
  unfoldable pub create_device : Device → Exec (MongoStore Col) (Unit {0})
  create_device d s =
      let r = driver.insert_one (device_to_doc d) s.devices in
      (result_or device_exists r.0, record s { devices = r.1 })

  unfoldable pub get_device : String → MongoStore Col → Result Device
  get_device id s = doc_result (decode_one (driver.find_one (matching (has_id id)) s.devices))

  unfoldable pub list_devices : MongoStore Col → List Device
  list_devices s =
      map (λ x. doc_to_device x.document)
        (decoded_or_nil (driver.find everything (λ d. d.registered_at) ascending 0 s.devices))

  unfoldable pub update_device :
      String → String → String → String → GoMap String → Exec (MongoStore Col) (Unit {0})
  update_device id name device_type location metadata s =
      let r =
        driver.update_one (matching (has_id id))
          (set_description name device_type location metadata) s.devices in
      (count_result r.0, record s { devices = r.1 })

  unfoldable pub update_device_status :
      String → DeviceStatus → Time → Exec (MongoStore Col) (Unit {0})
  update_device_status id status seen s =
      let r = driver.update_one (matching (has_id id)) (set_status status seen) s.devices in
      (count_result r.0, record s { devices = r.1 })

  -- The errors of the two later calls are dropped.
  unfoldable pub delete_device : String → Exec (MongoStore Col) (Unit {0})
  delete_device id s =
      let r = driver.delete_one (matching (has_id id)) s.devices in
      let s' = record s { devices = r.1 } in
      elim (count_result r.0) [
        | err e ↦ (err e, s')
        | ok _ ↦ (
          ok tt,
          record s' {
            telemetry = (driver.delete_many (matching (λ t. t.device_id == id)) s.telemetry).1;
            alerts = (driver.delete_many (matching (alert_of id)) s.alerts).1;
          },
        )
      ]

  unfoldable pub add_alert : Alert → Exec (MongoStore Col) (Unit {0})
  add_alert a s =
      let r = driver.insert_one (alert_to_doc a) s.alerts in
      (result_of r.0, record s { alerts = r.1 })

  unfoldable pub list_alerts : String → MongoStore Col → List Alert
  list_alerts id s =
      map (λ x. doc_to_alert x.document)
        (decoded_or_nil (driver.find (alert_filter id) (λ a. a.created_at) ascending 0 s.alerts))
