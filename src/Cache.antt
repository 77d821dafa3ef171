-- ===== src/Cache.antt =====
-- internal/cache/redis.go: the status cache and the event bus on Redis. The client of go-redis and
-- encoding/json are parameters: the client acts on a state of its own, the server's data with it.
-- A deadline on a context shows as an error of the call.
pub mod Statuses
pub mod Bus
mod Tests
use Prim.Native.String.{◌++◌}
use iot_api.Common.{
  ◌*◌, String, Option, none, some, List, [], ◌∷◌, if◌then◌else◌, Result, ok, err, Error, Exec,
}
use iot_api.Common.Int.{ℤ, pos, leb_ℤ}
use iot_api.GoTime.{Time, Duration, second}
use iot_api.Models.{DeviceStatus, Event}
use iot_api.Service.{Publisher, StatusCache}

abbrev pub status_key_prefix : String
status_key_prefix = "device:status:"

abbrev pub events_channel : String
events_channel = "iot:events"

-- `redis.Options`, as far as the program sets them.
pub record Options : Type 0 where
  pub addr : String
  pub password : String
  pub db : ℤ

-- The answer of `Get`: `redis.Nil` stands for a key that is not there.
pub data Reply : Type 0 where
  value : String → Reply
  redis_nil : Reply
  failed : Error → Reply

-- The client of go-redis.
pub record Client (R : Type 0) : Type 0 where
  pub new_client : Options → R
  pub ping : Exec R (Unit {0})
  pub close : Exec R (Unit {0})
  pub set : String → String → Duration → Exec R (Unit {0})
  pub get : String → R → Reply
  pub publish : String → String → Exec R (Unit {0})

pub record StatusEntry : Type 0 where
  pub status : String
  pub last_seen : Time

-- encoding/json, on the two types that the cache encodes.
pub record Json : Type 0 where
  pub marshal_status : StatusEntry → Result String
  pub unmarshal_status : String → Result StatusEntry
  pub marshal_event : Event → Result String
  pub unmarshal_event : String → Result Event

pub record Redis : Type 0 where
  pub ttl : Duration

pub record Config : Type 0 where
  pub addr : String
  pub password : String
  pub db : ℤ
  pub status_ttl : Duration

module _ {R : Type 0} (client : Client R) where
  -- A lifetime that is not positive means five minutes. A client that does not answer is closed.
  unfoldable pub new : Config → Result Redis × R
  new cfg =
      let ttl = if leb_ℤ cfg.status_ttl (pos 0) then pos (5 * 60 * second) else cfg.status_ttl in
      let r =
        client.new_client (record { addr = cfg.addr; password = cfg.password; db = cfg.db }) in
      let ping = client.ping r in
      elim ping.0 [
        | err e ↦ (err e, (client.close ping.1).1)
        | ok _ ↦ (ok (record { ttl = ttl }), ping.1)
      ]

  unfoldable pub close : Exec R (Unit {0})
  close = client.close

  module _ (json : Json) where
    unfoldable pub set_device_status : Redis → String → DeviceStatus → Time → Exec R (Unit {0})
    set_device_status redis id status last_seen r =
        elim (json.marshal_status (record { status = status; last_seen = last_seen })) [
          | err e ↦ (err e, r)
          | ok payload ↦ client.set (status_key_prefix ++ id) payload redis.ttl r
        ]

    -- What `GetDeviceStatus` makes of a decoded entry.
    abbrev pub entry_found : Result StatusEntry → Result (Option (DeviceStatus × Time))
    entry_found (err e) = err e
    entry_found (ok entry) = ok (some (entry.status, entry.last_seen))

    abbrev pub reply_found : Reply → Result (Option (DeviceStatus × Time))
    reply_found (value raw) = entry_found (json.unmarshal_status raw)
    reply_found redis_nil = ok none
    reply_found (failed e) = err e

    unfoldable pub get_device_status : String → R → Result (Option (DeviceStatus × Time))
    get_device_status id r = reply_found (client.get (status_key_prefix ++ id) r)

    -- An event that cannot be encoded is dropped, and so is an error of the call.
    unfoldable pub broadcast : Event → R → R
    broadcast event r = elim (json.marshal_event event) [
      | err _ ↦ r
      | ok payload ↦ (client.publish events_channel payload r).1
    ]

    abbrev pub status_cache : Redis → StatusCache R
    status_cache redis = record {
      set_device_status = set_device_status redis;
      get_device_status = get_device_status;
    }

    abbrev pub publisher : Publisher R
    publisher = record { broadcast = broadcast }

-- What the select of `Subscribe` takes: the end of the context, the end of the channel, or a message.
pub data Arrival : Type 0 where
  done : Error → Arrival
  channel_closed : Arrival
  message : String → Arrival

-- `Subscribe` has returned an error or nil, or waits.
pub data Subscription : Type 0 where
  returned : Result (Unit {0}) → Subscription
  waiting : Subscription

module _ {S : Type 0} (json : Json) (handler : Event → S → S) where
  abbrev pub handle : Result Event → S → S
  handle (err _) s = s
  handle (ok event) s = handler event s

  unfoldable pub consume : List Arrival → S → Subscription × S
  consume [] s = (waiting, s)
  consume (done e ∷ arrivals) s = (returned (err e), s)
  consume (channel_closed ∷ arrivals) s = (returned (ok tt), s)
  consume (message payload ∷ arrivals) s =
      consume arrivals (handle (json.unmarshal_event payload) s)

  -- `received` is the answer to the subscription. Its error is wrapped, which keeps the error.
  unfoldable pub subscribe : Result (Unit {0}) → List Arrival → S → Subscription × S
  subscribe (err e) arrivals s = (returned (err e), s)
  subscribe (ok _) arrivals s = consume arrivals s
