-- ===== src/Cache/Bus.antt =====
-- The events that internal/cache/redis.go carries from one instance to another.
use iot_api.Common.{String, ◌≡◌, refl, List, [], ◌∷◌, ◌++◌, map, Pointwise, ok}
use iot_api.Models.{Event}
use iot_api.Cache.{Json, Arrival, channel_closed, message, returned, consume, subscribe}

-- Two events that agree in all but the payload, which is decoded as a generic value.
abbrev pub SameHeader : Event → Event → Type 0
SameHeader e d =
    (d.event_type ≡ e.event_type) × (d.device_id ≡ e.device_id) × (d.timestamp ≡ e.timestamp)

-- encoding/json: an event that was encoded can be decoded.
pub record EventJsonLaws (json : Json) : Type 0 where
  pub unmarshal-marshal :
      (e : Event) (payload : String)
      → json.marshal_event e ≡ ok payload
      → (d : Event) × (json.unmarshal_event payload ≡ ok d) × SameHeader e d

-- The handler, called with each event in turn.
abbrev pub handle_all : {S : Type 0} → (Event → S → S) → List Event → S → S
handle_all handler [] s = s
handle_all handler (e ∷ es) s = handle_all handler es (handler e s)

-- The payload is what an event is encoded as.
abbrev pub Carries : Json → Event → String → Type 0
Carries json e payload = json.marshal_event e ≡ ok payload

module _ {S : Type 0} (json : Json) (laws : EventJsonLaws json) (handler : Event → S → S) where
  consume_events :
      (events : List Event) (payloads : List String) (rest : List Arrival) (s : S)
      → Pointwise (Carries json) events payloads
      → (decoded : List Event) × Pointwise SameHeader events decoded
        × (consume json handler (map message payloads ++ channel_closed ∷ rest) s
            ≡ (returned (ok tt), handle_all handler decoded s))
  unfolding consume
  consume_events [] [] rest s tt = ([], tt, refl)
  consume_events [] (p ∷ ps) rest s c = absurd c
  consume_events (e ∷ es) [] rest s c = absurd c
  consume_events (e ∷ es) (p ∷ ps) rest s (carried, c) =
      let (d, decodes, same) = laws.unmarshal-marshal e p carried in
      let (ds, sames, ran) = consume_events es ps rest (handler d s) c in
      (d ∷ ds, (same, sames), rw (decodes, consume) ran)

  -- A subscriber that was accepted, and receives what events were encoded as until the channel is
  -- closed, calls the handler once for each of them, in order, with the type, the device and the
  -- time of the event, and returns without an error. What would arrive later is not handled.
  subscribe_lem :
      (events : List Event) (payloads : List String) (rest : List Arrival) (s : S)
      → Pointwise (Carries json) events payloads
      → (decoded : List Event) × Pointwise SameHeader events decoded
        × (subscribe json handler (ok tt) (map message payloads ++ channel_closed ∷ rest) s
            ≡ (returned (ok tt), handle_all handler decoded s))
  unfolding subscribe
  subscribe_lem = consume_events
