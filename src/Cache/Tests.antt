-- ===== src/Cache/Tests.antt =====
-- Runs of internal/cache/redis.go on a client that holds its keys in a map, and a JSON that knows
-- one entry and the events without a device.
use iot_api.Common.{
  ◌≡◌, refl, inl, String, ◌&&◌, ◌==◌, eq_iff, eq_refl, nat_eq, if◌then◌else◌, Option, none, some,
  [], ok, err, external, arith,
}
use iot_api.Common.Int.{pos}
use iot_api.Common.GoMap.{GoMap, lookup, insert, lookup-insert}
use iot_api.Models.{json_payload}
use iot_api.Service.Caching.{StatusCacheLaws}
use iot_api.Cache.{
  Reply, value, redis_nil, Client, StatusEntry, Json, Redis, set_device_status, status_cache,
}
use iot_api.Cache.Statuses.{ClientLaws, JsonLaws, status_cache-StatusCacheLaws}
use iot_api.Cache.Bus.{EventJsonLaws}

abbrev reply : Option String → Reply
reply none = redis_nil
reply (some payload) = value payload

abbrev client : Client (GoMap String)
client = record {
  new_client = λ options. [];
  ping = λ r. (ok tt, r);
  close = λ r. (ok tt, r);
  set = λ key payload ttl r. (ok tt, insert key payload r);
  get = λ key r. reply (lookup key r);
  publish = λ channel payload r. (ok tt, r);
}

client-ClientLaws : ClientLaws client
client-ClientLaws = record {
  get-set =
      λ key payload ttl r h. inl (rw (lookup-insert key key payload r) (rw (eq_refl key) refl));
  get-set_failed = λ key payload ttl r e h. absurd (ground arith);
}

abbrev entry : StatusEntry
entry = record { status = "online"; last_seen = 8 }

abbrev json : Json
json = record {
  marshal_status =
      λ e. if e.status == "online" && nat_eq e.last_seen 8 then ok "online8" else err external;
  unmarshal_status = λ payload. if payload == "online8" then ok entry else err external;
  marshal_event =
      λ e. if e.device_id == "" && nat_eq e.timestamp 0 then ok e.event_type else err external;
  unmarshal_event = λ payload.
      ok (record {
        event_type = payload;
        device_id = "";
        payload = json_payload "{}";
        timestamp = 0;
      });
}

json-JsonLaws : JsonLaws json
json-JsonLaws = record {
  unmarshal-marshal =
      λ e payload h. ground (arith, h, eq_iff e.status "online", eq_iff payload "online8");
}

json-EventJsonLaws : EventJsonLaws json
json-EventJsonLaws = record {
  unmarshal-marshal = λ e payload h. (
    record { event_type = payload; device_id = ""; payload = json_payload "{}"; timestamp = 0 },
    refl,
    (
      ground (arith, h, eq_iff e.device_id ""),
      ground (arith, h, eq_iff e.device_id ""),
      ground (arith, h, eq_iff e.device_id ""),
    ),
  );
}

abbrev redis : Redis
redis = record { ttl = pos 300 }

set : (set_device_status client json redis "pump" "online" 8 []).0 ≡ ok tt
unfolding set_device_status
set = refl

status_cache-StatusCacheLaws_example : StatusCacheLaws (status_cache client json redis)
status_cache-StatusCacheLaws_example =
    status_cache-StatusCacheLaws client client-ClientLaws json json-JsonLaws redis
