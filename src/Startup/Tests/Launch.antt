-- ===== src/Startup/Tests/Launch.antt =====
-- A start of cmd/server/main.go that fails over the password of the admin user.
use iot_api.Common.{ℕ, false, [], ok, err, external}
use iot_api.Hub.{Channel}
use iot_api.Auth.Service as Accounts
use iot_api.Cache.{Client, Json, redis_nil}
use iot_api.Configuration.{Config}
use iot_api.Store.Memory.Users
use iot_api.Startup.Tests.{config}

abbrev client : Client (Unit {0})
client = record {
  new_client = λ options. tt;
  ping = λ r. (ok tt, r);
  close = λ r. (ok tt, r);
  set = λ key payload ttl r. (ok tt, r);
  get = λ key r. redis_nil;
  publish = λ channel payload r. (ok tt, r);
}

abbrev json : Json
json = record {
  marshal_status = λ e. err external;
  unmarshal_status = λ payload. err external;
  marshal_event = λ e. err external;
  unmarshal_event = λ payload. err external;
}

abbrev no_channels : ℕ → Channel
no_channels ch = record { buffer = []; capacity = 0; closed = false }

abbrev weak_config : Config
weak_config = record config { jwt_secret = "key"; admin_password = "short" }
