-- ===== src/Mqtt.antt =====
-- internal/mqtt/mqtt.go: the bridge that forwards telemetry messages. The MQTT client and the
-- decoding of JSON are parameters.
pub mod Topics
mod Tests
use Prim.Native.String.{◌++◌}
use iot_api.Common.{
  ℕ, ◌*◌, String, Bool, true, ◌==◌, ◌&&◌, Option, none, some, List, [], ◌∷◌, if◌then◌else◌, Exec,
  Result, ok, err,
}
use iot_api.Common.Int.{pos, leb_ℤ}
use iot_api.Common.GoMap.{GoMap}
use iot_api.GoTime.{Time, Duration, second}
use iot_api.GoStrings.{split}
use iot_api.Float64.{Float64}
use iot_api.Models.{Telemetry}

pub record Config : Type 0 where
  pub broker_url : String
  pub client_id : String
  pub topic_prefix : String
  pub username : String
  pub password : String
  pub connect_retry : Duration

-- `Ingestor`, on its own state.
pub record Ingestor (I : Type 0) : Type 0 where
  pub ingest_telemetry : Telemetry → I → Bool × I

pub record Bridge : Type 0 where
  pub cfg : Config
  pub prefix : String

-- The first argument is the client identifier that is made where none is configured.
unfoldable pub new_bridge : String → Config → Bridge
new_bridge fresh_id cfg = record {
  cfg = record cfg {
    client_id = if cfg.client_id == "" then fresh_id else cfg.client_id;
    connect_retry = if leb_ℤ cfg.connect_retry (pos 0) then pos (5 * second) else cfg.connect_retry;
  };
  prefix = if cfg.topic_prefix == "" then "devices" else cfg.topic_prefix;
}

-- The options of the client. The handler of a connection subscribes to `topic`.
pub record ClientOptions : Type 0 where
  pub broker : String
  pub client_id : String
  pub auto_reconnect : Bool
  pub connect_retry : Bool
  pub connect_retry_interval : Duration
  -- The name and the password, where a name is set.
  pub credentials : Option (String × String)
  pub topic : String

-- The part of `NewBridge` behind the defaults, on the bridge that it makes.
unfoldable pub client_options : Bridge → ClientOptions
client_options b = record {
  broker = b.cfg.broker_url;
  client_id = b.cfg.client_id;
  auto_reconnect = true;
  connect_retry = true;
  connect_retry_interval = b.cfg.connect_retry;
  credentials = if b.cfg.username == "" then none else some (b.cfg.username, b.cfg.password);
  topic = b.prefix ++ "/+/telemetry";
}

-- The client of the MQTT library, which `NewBridge` makes.
pub record Client (M : Type 0) : Type 0 where
  pub connect : Exec M (Unit {0})
  pub is_connected : M → Bool
  -- On a topic, with a quality of service; `Wait` and `Error` of its token are the result.
  pub subscribe : String → ℕ → Exec M (Unit {0})
  -- With the milliseconds that it waits for work to end.
  pub disconnect : ℕ → M → M

module _ {M : Type 0} (client : Client M) where
  unfoldable pub connect : Exec M (Unit {0})
  connect = client.connect

  -- The handler of a connection: an error is only logged.
  unfoldable pub on_connect : Bridge → M → M
  on_connect b m = (client.subscribe (client_options b).topic 1 m).1

  unfoldable pub disconnect : M → M
  disconnect m = if client.is_connected m then client.disconnect 250 m else m

-- The code of `/`.
abbrev pub slash : ℕ
slash = 47

abbrev pub middle_part : String → List String → String
middle_part prefix (first ∷ id ∷ last ∷ []) =
    if first == prefix && last == "telemetry" then id else ""
middle_part prefix _ = ""

unfoldable pub device_id_from_topic : String → String → String
device_id_from_topic topic prefix = middle_part prefix (split slash topic)

-- The fields of the decoded payload; a missing time is `none`.
pub record Payload : Type 0 where
  pub timestamp : Option Time
  pub metrics : GoMap Float64

abbrev pub time_or : Time → Option Time → Time
time_or now none = now
time_or now (some t) = t

abbrev pub telemetry_of : String → Time → Payload → Telemetry
telemetry_of id now p = record {
  device_id = id;
  timestamp = time_or now p.timestamp;
  metrics = p.metrics;
}

module _ {I : Type 0} (ingestor : Ingestor I) (unmarshal : String → Result Payload) where
  abbrev pub ingest_decoded : String → Time → Result Payload → I → I
  ingest_decoded id now (err _) s = s
  ingest_decoded id now (ok p) s = (ingestor.ingest_telemetry (telemetry_of id now p) s).1

  unfoldable pub on_message : Bridge → Time → String → String → I → I
  on_message b now topic payload s =
      let id = device_id_from_topic topic b.prefix in
      if id == "" then s else ingest_decoded id now (unmarshal payload) s
