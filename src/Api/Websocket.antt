-- ===== src/Api/Websocket.antt =====
-- internal/api/handlers.go: the stream of events over a WebSocket. `Upgrade` and the connection are
-- outside the program: they show as a status, and as what wakes the loop.
pub mod Streams
use iot_api.Common.{ℕ, Bool, true, false, Option, none, some, List, [], ◌∷◌, if◌then◌else◌}
use iot_api.Models.{Event}
use iot_api.Hub
use iot_api.Hub.{Hub}
use iot_api.Hub.Delivery.{Call, call}
use iot_api.Service.Queries.{HubAccess, subscribe}
use iot_api.Api.{no_body, Environment, Endpoint, write_json}

module _ {S P C : Type 0} where
  -- A failed upgrade has written its own answer. Otherwise the connection is taken over (101), and
  -- its loop runs on a channel of its own.
  unfoldable pub websocket : HubAccess P → Environment → Endpoint S P C
  websocket access env id r c w = elim (env.upgrade r) [
    | some status ↦ write_json status no_body w
    | none ↦ write_json 101 no_body (record w { state = (subscribe access w.state).0 })
  ]

-- What happens while the loop of a connection waits: another goroutine calls the hub, the select
-- takes the case of the client that has gone (the channel `closed`), or it takes the case of the
-- events, whose event is then written or not.
pub data Wake : Type 0 where
  elsewhere : Call → Wake
  client_closed : Wake
  takes : Bool → Wake

-- The hub after the loop's wakes, the events that were written, and whether the handler returned.
pub record Stream : Type 0 where
  pub hub : Hub
  pub written : List Event
  pub returned : Bool

-- `defer h.svc.Unsubscribe(events)`; `none` is a panic.
abbrev pub close_stream : ℕ → Hub → Option Stream
close_stream ch h = elim (Hub.unsubscribe ch h) [
  | none ↦ none
  | some h' ↦ some (record { hub = h'; written = []; returned = true })
]

abbrev pub also_written : Event → Option Stream → Option Stream
also_written event none = none
also_written event (some s) = some (record s { written = event ∷ s.written })

-- The loop. A receive is ready if an event is buffered or the channel is closed.
unfoldable pub stream : List Wake → ℕ → Hub → Option Stream
stream [] ch h = some (record { hub = h; written = []; returned = false })
stream (elsewhere c ∷ wakes) ch h = elim (call c h) [ none ↦ none | some h' ↦ stream wakes ch h' ]
stream (client_closed ∷ wakes) ch h = close_stream ch h
stream (takes sent ∷ wakes) ch h = elim ((Hub.receive ch h).1) [
  | none ↦ elim ((h.channels ch).closed) [ true ↦ close_stream ch h | false ↦ stream wakes ch h ]
  | some event ↦ elim sent [
    | true ↦ also_written event (stream wakes ch (Hub.receive ch h).0)
    | false ↦ close_stream ch (Hub.receive ch h).0
  ]
]
