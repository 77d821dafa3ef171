-- ===== src/Cache/Statuses.antt =====
-- The statuses that internal/cache/redis.go caches.
use Prim.Native.String.{◌++◌}
use iot_api.Common.{String, ◌≡◌, refl, ◌⊎◌, inl, inr, Result-cases, some, ok, err, Error, arith}
use iot_api.GoTime.{Time, Duration}
use iot_api.Models.{DeviceStatus}
use iot_api.Service.Caching.{StatusCacheLaws, IsMiss}
use iot_api.Cache.{
  Reply, value, redis_nil, failed, Client, StatusEntry, Json, Redis, status_key_prefix,
  set_device_status, get_device_status, reply_found, status_cache,
}

-- The reply has no value.
abbrev pub NoValue : Reply → Type 0
NoValue (value raw) = ⊥
NoValue redis_nil = Unit
NoValue (failed e) = Unit

-- Redis: after a `SET` that was confirmed, a `GET` of the key finds the value, or nothing once it has
-- expired or while the server does not answer. After one that was not confirmed it may also find
-- what was there before.
pub record ClientLaws {R : Type 0} (client : Client R) : Type 0 where
  pub get-set :
      (key payload : String) (ttl : Duration) (r : R)
      → (client.set key payload ttl r).0 ≡ ok tt
      → let reply = client.get key (client.set key payload ttl r).1 in
        (reply ≡ value payload) ⊎ NoValue reply
  pub get-set_failed :
      (key payload : String) (ttl : Duration) (r : R) (e : Error)
      → (client.set key payload ttl r).0 ≡ err e
      → let reply = client.get key (client.set key payload ttl r).1 in
        (reply ≡ value payload) ⊎ (reply ≡ client.get key r) ⊎ NoValue reply

-- encoding/json: an entry that was encoded is decoded as it was.
pub record JsonLaws (json : Json) : Type 0 where
  pub unmarshal-marshal :
      (entry : StatusEntry) (payload : String)
      → json.marshal_status entry ≡ ok payload
      → json.unmarshal_status payload ≡ ok entry

module _ {R : Type 0} (client : Client R) (laws : ClientLaws client) (json : Json)
    (codec : JsonLaws json) where
  NoValue-IsMiss : (reply : Reply) → NoValue reply → IsMiss (reply_found client json reply)
  NoValue-IsMiss (value raw) n = absurd n
  NoValue-IsMiss redis_nil n = λ status seen e. ground arith
  NoValue-IsMiss (failed e) n = λ status seen h. ground arith

  set_cases :
      (key payload : String) (ttl : Duration) (r : R)
      → let reply = client.get key (client.set key payload ttl r).1 in
        (reply ≡ value payload) ⊎ (reply ≡ client.get key r) ⊎ NoValue reply
  set_cases key payload ttl r = elim (Result-cases (client.set key payload ttl r).0) [
    | inr (e, p) ↦ laws.get-set_failed key payload ttl r e p
    | inl (_, p) ↦ elim (laws.get-set key payload ttl r p) [ inl v ↦ inl v | inr n ↦ inr (inr n) ]
  ]

  -- A status that was set without an error is what a reading of the device finds, time and all,
  -- unless it finds no entry or fails.
  set_device_status-get :
      (redis : Redis) (id : String) (status : DeviceStatus) (seen : Time) (r : R)
      → let out = set_device_status client json redis id status seen r in
        out.0 ≡ ok tt
        → (get_device_status client json id out.1 ≡ ok (some (status, seen)))
          ⊎ IsMiss (get_device_status client json id out.1)
  unfolding set_device_status get_device_status
  set_device_status-get redis id status seen r =
      let entry : StatusEntry = record { status = status; last_seen = seen } in
      elim (Result-cases (json.marshal_status entry)) [
        | inr (e, p) ↦ rw (p, set_device_status) (λ h. absurd (ground arith))
        | inl (payload, p) ↦
            rw (p, set_device_status)
              (λ h. elim (laws.get-set (status_key_prefix ++ id) payload redis.ttl r h) [
                | inl found ↦ inl (
                    rw (found, get_device_status)
                      (rw (codec.unmarshal-marshal entry payload p) refl))
                | inr gone ↦ inr (NoValue-IsMiss _ gone)
              ])
      ]

  -- Redis keeps what the service relies on of a status cache: a reading after a write, confirmed or
  -- not, finds the status written, or what it found before, or none.
  pub status_cache-StatusCacheLaws :
      (redis : Redis) → StatusCacheLaws (status_cache client json redis)
  unfolding set_device_status get_device_status
  status_cache-StatusCacheLaws redis = record {
    get-set = λ id status seen r.
        let entry : StatusEntry = record { status = status; last_seen = seen } in
        elim (Result-cases (json.marshal_status entry)) [
          | inr (e, p) ↦ rw (p, set_device_status) (inr (inl refl))
          | inl (payload, p) ↦ elim (set_cases (status_key_prefix ++ id) payload redis.ttl r) [
            | inl found ↦
                rw (p, set_device_status)
                  (inl (
                    rw (found, get_device_status)
                      (rw (codec.unmarshal-marshal entry payload p) refl)))
            | inr (inl same) ↦
                rw (p, set_device_status) (inr (inl (rw (same, get_device_status) refl)))
            | inr (inr gone) ↦ rw (p, set_device_status) (inr (inr (NoValue-IsMiss _ gone)))
          ]
        ];
  }
