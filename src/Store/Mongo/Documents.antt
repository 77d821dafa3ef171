-- ===== src/Store/Mongo/Documents.antt =====
-- internal/store/mongo_mapping.go and the documents of mongo.go and mongo_users.go: how the
-- entities are stored. What BSON makes of a value is the driver's.
use iot_api.Common.{String, List}
use iot_api.Common.GoMap.{GoMap}
use iot_api.GoTime.{Time}
use iot_api.Float64.{Float64}
use iot_api.Models.{Device, Telemetry, Alert, User, RefreshToken}

pub record DeviceDoc : Type 0 where
  pub id : String
  pub name : String
  pub device_type : String
  pub location : String
  pub metadata : GoMap String
  pub status : String
  pub registered_at : Time
  pub last_seen_at : Time

pub record TelemetryDoc : Type 0 where
  pub device_id : String
  pub timestamp : Time
  pub metrics : GoMap Float64

pub record AlertDoc : Type 0 where
  pub id : String
  pub device_id : String
  pub metric : String
  pub value : Float64
  pub threshold : Float64
  pub severity : String
  pub message : String
  pub created_at : Time

pub record UserDoc : Type 0 where
  pub id : String
  pub username : String
  pub password_hash : String
  pub roles : List String
  pub created_at : Time

pub record RefreshDoc : Type 0 where
  pub token_hash : String
  pub user_id : String
  pub expires_at : Time
  pub created_at : Time

unfoldable pub device_to_doc : Device → DeviceDoc
device_to_doc d = record {
  id = d.id;
  name = d.name;
  device_type = d.device_type;
  location = d.location;
  metadata = d.metadata;
  status = d.status;
  registered_at = d.registered_at;
  last_seen_at = d.last_seen_at;
}

unfoldable pub doc_to_device : DeviceDoc → Device
doc_to_device doc = record {
  id = doc.id;
  name = doc.name;
  device_type = doc.device_type;
  location = doc.location;
  metadata = doc.metadata;
  status = doc.status;
  registered_at = doc.registered_at;
  last_seen_at = doc.last_seen_at;
}

unfoldable pub telemetry_to_doc : Telemetry → TelemetryDoc
telemetry_to_doc t = record {
  device_id = t.device_id;
  timestamp = t.timestamp;
  metrics = t.metrics;
}

unfoldable pub doc_to_telemetry : TelemetryDoc → Telemetry
doc_to_telemetry doc = record {
  device_id = doc.device_id;
  timestamp = doc.timestamp;
  metrics = doc.metrics;
}

unfoldable pub alert_to_doc : Alert → AlertDoc
alert_to_doc a = record {
  id = a.id;
  device_id = a.device_id;
  metric = a.metric;
  value = a.value;
  threshold = a.threshold;
  severity = a.severity;
  message = a.message;
  created_at = a.created_at;
}

unfoldable pub doc_to_alert : AlertDoc → Alert
doc_to_alert doc = record {
  id = doc.id;
  device_id = doc.device_id;
  metric = doc.metric;
  value = doc.value;
  threshold = doc.threshold;
  severity = doc.severity;
  message = doc.message;
  created_at = doc.created_at;
}

unfoldable pub user_to_doc : User → UserDoc
user_to_doc u = record {
  id = u.id;
  username = u.username;
  password_hash = u.password_hash;
  roles = u.roles;
  created_at = u.created_at;
}

unfoldable pub doc_to_user : UserDoc → User
doc_to_user d = record {
  id = d.id;
  username = d.username;
  password_hash = d.password_hash;
  roles = d.roles;
  created_at = d.created_at;
}

unfoldable pub refresh_to_doc : RefreshToken → RefreshDoc
refresh_to_doc rt = record {
  token_hash = rt.token_hash;
  user_id = rt.user_id;
  expires_at = rt.expires_at;
  created_at = rt.created_at;
}

unfoldable pub doc_to_refresh : RefreshDoc → RefreshToken
doc_to_refresh doc = record {
  token_hash = doc.token_hash;
  user_id = doc.user_id;
  expires_at = doc.expires_at;
  created_at = doc.created_at;
}
