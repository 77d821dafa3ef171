-- ===== src/Configuration.antt =====
-- internal/config/config.go: the settings that are read from the environment, and their defaults. The
-- environment and the parsers of numbers and durations are parameters.
use iot_api.Common.{◌*◌, String, ◌==◌, Option, none, some, if◌then◌else◌, Result, ok, err}
use iot_api.Common.Int.{ℤ, pos}
use iot_api.GoTime.{Duration, second}

-- `os.LookupEnv`, `strconv.Atoi` and `time.ParseDuration`.
pub record Environment : Type 0 where
  pub lookup_env : String → Option String
  pub atoi : String → Result ℤ
  pub parse_duration : String → Result Duration

pub record Config : Type 0 where
  pub http_addr : String
  pub workers : ℤ
  pub queue_size : ℤ
  pub max_history : ℤ
  pub offline_after : Duration
  pub reconcile_every : Duration
  pub mqtt_broker_url : String
  pub mqtt_topic_prefix : String
  pub mqtt_client_id : String
  pub mqtt_username : String
  pub mqtt_password : String
  pub mongo_uri : String
  pub mongo_db : String
  pub redis_addr : String
  pub redis_password : String
  pub redis_db : ℤ
  pub redis_status_ttl : Duration
  pub jwt_secret : String
  pub jwt_ttl : Duration
  pub refresh_ttl : Duration
  pub admin_username : String
  pub admin_password : String

-- An empty value counts as a missing one.
abbrev pub or_fallback : String → Option String → String
or_fallback fallback none = fallback
or_fallback fallback (some v) = if v == "" then fallback else v

-- A value that does not parse counts as a missing one.
abbrev pub parsed_or : {A : Type 0} → (String → Result A) → A → Option String → A
parsed_or parse fallback none = fallback
parsed_or parse fallback (some v) = elim (parse v) [ ok a ↦ a | err _ ↦ fallback ]

module _ (env : Environment) where
  unfoldable pub get_env : String → String → String
  get_env key fallback = or_fallback fallback (env.lookup_env key)

  unfoldable pub get_env_int : String → ℤ → ℤ
  get_env_int key fallback = parsed_or env.atoi fallback (env.lookup_env key)

  unfoldable pub get_env_duration : String → Duration → Duration
  get_env_duration key fallback = parsed_or env.parse_duration fallback (env.lookup_env key)

  unfoldable pub load : Config
  load = record {
    http_addr = get_env "HTTP_ADDR" ":8080";
    workers = get_env_int "WORKERS" (pos 8);
    queue_size = get_env_int "QUEUE_SIZE" (pos 1024);
    max_history = get_env_int "MAX_HISTORY" (pos 1000);
    offline_after = get_env_duration "OFFLINE_AFTER" (pos (30 * second));
    reconcile_every = get_env_duration "RECONCILE_EVERY" (pos (10 * second));
    mqtt_broker_url = get_env "MQTT_BROKER_URL" "";
    mqtt_topic_prefix = get_env "MQTT_TOPIC_PREFIX" "devices";
    mqtt_client_id = get_env "MQTT_CLIENT_ID" "";
    mqtt_username = get_env "MQTT_USERNAME" "";
    mqtt_password = get_env "MQTT_PASSWORD" "";
    mongo_uri = get_env "MONGO_URI" "";
    mongo_db = get_env "MONGO_DB" "iot";
    redis_addr = get_env "REDIS_ADDR" "";
    redis_password = get_env "REDIS_PASSWORD" "";
    redis_db = get_env_int "REDIS_DB" (pos 0);
    redis_status_ttl = get_env_duration "REDIS_STATUS_TTL" (pos (5 * 60 * second));
    jwt_secret = get_env "JWT_SECRET" "";
    jwt_ttl = get_env_duration "JWT_TTL" (pos (15 * 60 * second));
    refresh_ttl = get_env_duration "JWT_REFRESH_TTL" (pos (7 * 24 * 3600 * second));
    admin_username = get_env "ADMIN_USERNAME" "admin";
    admin_password = get_env "ADMIN_PASSWORD" "";
  }
