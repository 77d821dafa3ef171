-- ===== src/Api/Websocket/Streams.antt =====
-- The loop of a WebSocket connection in internal/api/handlers.go ends, and gives its channel back.

use iot_api.Common.{
  ℕ, ◌≡◌, ◌≢◌, refl, ap, inl, inr, Bool, true, false, Option, some, List, [], ◌∷◌, In, All,
  Bool-cases, Option-cases, arith,
}
use iot_api.Models.{Event}
use iot_api.Hub.{Hub, subscribe, remove, unsubscribe, close_channel, receive}
use iot_api.Hub.Invariant.{IsOpen, In-remove, is_subscribed_iff, unsubscribe-IsOpen}
use iot_api.Hub.Delivery.{
  Call, subscribes, unsubscribes, broadcasts, receives, call, call-IsOpen, broadcast_lem,
  receive-IsOpen,
}
use iot_api.Api.Websocket.{
  Wake, elsewhere, client_closed, takes, Stream, close_stream, also_written, stream,
}

-- A call that does not unsubscribe the channel.
abbrev Spares : ℕ → Call → Type 0
Spares ch (unsubscribes j) = j ≢ ch
Spares ch subscribes = Unit
Spares ch (broadcasts event) = Unit
Spares ch (receives j) = Unit

-- The channel is known to its connection only: no other goroutine unsubscribes it.
abbrev pub Owned : ℕ → Wake → Type 0
Owned ch (elsewhere c) = Spares ch c
Owned ch client_closed = Unit
Owned ch (takes sent) = Unit

remove-In : (ch j : ℕ) (xs : List ℕ) → In j xs → ch ≢ j → In j (remove ch xs)
unfolding remove
remove-In ch j [] i other = i
remove-In ch j (x ∷ xs) i other = ground (arith, remove-In ch j xs)

call-In :
    (ch : ℕ) (c : Call) (h h' : Hub)
    → IsOpen h
    → Spares ch c
    → call c h ≡ some h'
    → In ch h.subscribers
    → In ch h'.subscribers
unfolding call subscribe unsubscribe receive
call-In ch subscribes h h' v spares e i = ground (arith, e)
call-In ch (unsubscribes j) h h' v spares e i =
    ground (arith, e, remove-In j ch h.subscribers i spares)
call-In ch (broadcasts event) h h' v spares e i =
    let (h1, sent, v1, same, _) = broadcast_lem event h v in ground (arith, sent, e, same, i)
call-In ch (receives j) h h' v spares e i = ground (arith, e, i)

abbrev is_close : Wake → Bool
is_close (elsewhere c) = false
is_close client_closed = true
is_close (takes sent) = false

later :
    (wake : Wake) (wakes : List Wake)
    → is_close wake ≡ false
    → In client_closed (wake ∷ wakes)
    → In client_closed wakes
later wake wakes other (inl e) = absurd (ground (arith, other, ap is_close e))
later wake wakes other (inr i) = i

-- The loop has returned without a panic, on an open hub whose subscribers the channel is not among.
abbrev pub Returns : ℕ → Option Stream → Type 0
Returns ch out =
    (s : Stream) × (out ≡ some s) × (s.returned ≡ true) × IsOpen s.hub × (¬ In ch s.hub.subscribers)

unsubscribe-In :
    (ch : ℕ) (h h' : Hub) → IsOpen h → unsubscribe ch h ≡ some h' → ¬ In ch h'.subscribers
unfolding unsubscribe close_channel
unsubscribe-In ch h h' v e i =
    ground (arith, e, In-remove ch ch h.subscribers, is_subscribed_iff ch h.subscribers)

close_stream-Returns : (ch : ℕ) (h : Hub) → IsOpen h → Returns ch (close_stream ch h)
close_stream-Returns ch h v =
    let (h', e, v') = unsubscribe-IsOpen ch h v in
    (
      record { hub = h'; written = []; returned = true },
      rw (e, close_stream) refl,
      refl,
      v',
      unsubscribe-In ch h h' v e,
    )

also_written-Returns :
    (ch : ℕ) (event : Event) (out : Option Stream)
    → Returns ch out
    → Returns ch (also_written event out)
also_written-Returns ch event out (s, e, done, v, gone) =
    (record s { written = event ∷ s.written }, rw e refl, done, v, gone)

receive-In : (ch j : ℕ) (h : Hub) → In ch h.subscribers → In ch (receive j h).0.subscribers
unfolding receive
receive-In ch j h i = ground arith

-- A connection on an open hub, subscribed to a channel that no other goroutine unsubscribes, ends
-- where its select at some point takes the case of the client that has gone: whatever else happens
-- and whichever case it takes before, the handler returns without a panic, and leaves the hub open
-- and its own channel unsubscribed.
pub stream-Returns :
    (wakes : List Wake) (ch : ℕ) (h : Hub)
    → IsOpen h
    → In ch h.subscribers
    → All (Owned ch) wakes
    → In client_closed wakes
    → Returns ch (stream wakes ch h)
unfolding stream
stream-Returns [] ch h v i owned closed = absurd closed
stream-Returns (elsewhere c ∷ wakes) ch h v i owned closed =
    let (h', e, v') = call-IsOpen c h v in
    rw (e, stream)
      (stream-Returns wakes ch h' v' (call-In ch c h h' v owned.0 e i) owned.1
        (later (elsewhere c) wakes refl closed))
stream-Returns (client_closed ∷ wakes) ch h v i owned closed = close_stream-Returns ch h v
stream-Returns (takes sent ∷ wakes) ch h v i owned closed =
    let v' = receive-IsOpen ch h v in
    let rest = later (takes sent) wakes refl closed in
    elim (Option-cases (receive ch h).1) [
      | inl e ↦ elim (Bool-cases (h.channels ch).closed) [
        | inl d ↦ rw (e, stream) (rw (d, stream) (close_stream-Returns ch h v))
        | inr d ↦ rw (e, stream) (rw (d, stream) (stream-Returns wakes ch h v i owned.1 rest))
      ]
      | inr (event, e) ↦ elim (Bool-cases sent) [
        | inl d ↦
            rw (e, stream)
              (rw (d, stream)
                (also_written-Returns ch event (stream wakes ch (receive ch h).0) (
                  stream-Returns wakes ch (receive ch h).0 v' (receive-In ch ch h i) owned.1 rest)))
        | inr d ↦ rw (e, stream) (rw (d, stream) (close_stream-Returns ch (receive ch h).0 v'))
      ]
    ]
