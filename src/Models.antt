-- ===== src/Models.antt =====
-- internal/models/models.go: the domain entities. A Go map is a `GoMap`, a time an instant of
-- `GoTime`, a `float64` its bits. The JSON tags are not modelled.
use iot_api.Common.{ℕ, String, List}
use iot_api.Common.GoMap.{GoMap}
use iot_api.GoTime.{Time}
use iot_api.Float64.{Float64}

-- A string type with four named values; the cache may hand back any other.
abbrev pub DeviceStatus : Type 0
DeviceStatus = String

abbrev pub status_online : DeviceStatus
status_online = "online"

abbrev pub status_offline : DeviceStatus
status_offline = "offline"

abbrev pub status_degraded : DeviceStatus
status_degraded = "degraded"

abbrev pub status_unknown : DeviceStatus
status_unknown = "unknown"

pub record Device : Type 0 where
  pub id : String
  pub name : String
  pub device_type : String
  pub location : String
  pub metadata : GoMap String
  pub status : DeviceStatus
  pub registered_at : Time
  pub last_seen_at : Time

pub record RegisterDeviceRequest : Type 0 where
  pub name : String
  pub device_type : String
  pub location : String
  pub metadata : GoMap String

pub record UpdateDeviceRequest : Type 0 where
  pub name : String
  pub device_type : String
  pub location : String
  pub metadata : GoMap String

pub record Telemetry : Type 0 where
  pub device_id : String
  pub timestamp : Time
  pub metrics : GoMap Float64

abbrev pub AlertSeverity : Type 0
AlertSeverity = String

abbrev pub severity_info : AlertSeverity
severity_info = "info"

abbrev pub severity_warning : AlertSeverity
severity_warning = "warning"

abbrev pub severity_critical : AlertSeverity
severity_critical = "critical"

pub record Alert : Type 0 where
  pub id : String
  pub device_id : String
  pub metric : String
  pub value : Float64
  pub threshold : Float64
  pub severity : AlertSeverity
  pub message : String
  pub created_at : Time

pub record AlertRule : Type 0 where
  pub metric : String
  pub operator : String
  pub threshold : Float64
  pub severity : AlertSeverity

pub record MetricStats : Type 0 where
  pub metric : String
  pub count : ℕ
  pub min : Float64
  pub max : Float64
  pub avg : Float64
  pub sum : Float64
  pub last : Float64

-- The values that the program puts behind `interface{}`.
pub data Payload : Type 0 where
  device_payload : Device → Payload
  telemetry_payload : Telemetry → Payload
  alert_payload : Alert → Payload
  status_payload : GoMap String → Payload
  -- A value that encoding/json decoded, by its text.
  json_payload : String → Payload

pub record Event : Type 0 where
  pub event_type : String
  pub device_id : String
  pub payload : Payload
  pub timestamp : Time

abbrev pub role_admin : String
role_admin = "admin"

abbrev pub role_viewer : String
role_viewer = "viewer"

pub record User : Type 0 where
  pub id : String
  pub username : String
  pub password_hash : String
  pub roles : List String
  pub created_at : Time

pub record RefreshToken : Type 0 where
  pub token_hash : String
  pub user_id : String
  pub expires_at : Time
  pub created_at : Time
