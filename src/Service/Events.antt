-- ===== src/Service/Events.antt =====
-- What internal/service/service.go makes: the events that it publishes and the device that it
-- registers.
use iot_api.Common.{String, [], ◌∷◌}
use iot_api.GoTime.{Time, zero_time}
use iot_api.Models.{
  Device, status_offline, status_unknown, RegisterDeviceRequest, Telemetry, Alert, Event,
  device_payload, telemetry_payload, alert_payload, status_payload,
}

abbrev pub device_event : Device → Time → Event
device_event d now = record {
  event_type = "device";
  device_id = d.id;
  payload = device_payload d;
  timestamp = now;
}

abbrev pub telemetry_event : Telemetry → Event
telemetry_event t = record {
  event_type = "telemetry";
  device_id = t.device_id;
  payload = telemetry_payload t;
  timestamp = t.timestamp;
}

abbrev pub alert_event : Alert → Event
alert_event a = record {
  event_type = "alert";
  device_id = a.device_id;
  payload = alert_payload a;
  timestamp = a.created_at;
}

abbrev pub offline_event : Device → Time → Event
offline_event d now = record {
  event_type = "status";
  device_id = d.id;
  payload = status_payload (("status", status_offline) ∷ []);
  timestamp = now;
}

-- The device that `RegisterDevice` makes.
abbrev pub new_device : RegisterDeviceRequest → String → Time → Device
new_device req uuid now = record {
  id = uuid;
  name = req.name;
  device_type = req.device_type;
  location = req.location;
  metadata = req.metadata;
  status = status_unknown;
  registered_at = now;
  last_seen_at = zero_time;
}
