-- ===== src/Store/Changes.antt =====
-- The assignments to a stored device of `UpdateDevice` and `UpdateDeviceStatus`
-- (internal/store/store.go).
use iot_api.Common.{String, if◌then◌else◌}
use iot_api.Common.GoMap.{GoMap}
use iot_api.GoTime.{Time, is_zero}
use iot_api.Models.{Device, DeviceStatus}

-- The four assignments of `UpdateDevice`.
abbrev pub with_description : String → String → String → GoMap String → Device → Device
with_description name device_type location metadata d = record d {
  name = name;
  device_type = device_type;
  location = location;
  metadata = metadata;
}

-- The assignments of `UpdateDeviceStatus`.
abbrev pub with_status : DeviceStatus → Time → Device → Device
with_status status seen d = record d {
  status = status;
  last_seen_at = if is_zero seen then d.last_seen_at else seen;
}
