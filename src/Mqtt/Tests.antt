-- ===== src/Mqtt/Tests.antt =====
-- Runs of internal/mqtt/mqtt.go on small examples. The ingestor is a log with the newest sample
-- first.
use iot_api.Common.{◌≡◌, refl}
use iot_api.Common.Int.{pos}
use iot_api.Mqtt.{Bridge, device_id_from_topic}
use iot_api.Mqtt.Topics.{device_id_from_topic-level}

abbrev bridge : Bridge
bridge = record {
  cfg = record {
    broker_url = "tcp://localhost:1883";
    client_id = "bridge";
    topic_prefix = "devices";
    username = "";
    password = "";
    connect_retry = pos 1;
  };
  prefix = "devices";
}

device_id_from_topic-level_example :
    device_id_from_topic "site/devices/pump/telemetry" "site/devices" ≡ ""
device_id_from_topic-level_example =
    device_id_from_topic-level "site/devices" "site/devices/pump/telemetry" refl
