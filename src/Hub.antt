-- ===== src/Hub.antt =====
-- internal/realtime/hub.go: the event hub. A Go channel is an object: the hub holds references to
-- channels that a heap maps to their buffers. Sending on a closed channel and closing one twice
-- panic; a panic is `none`. A method is one step; `Broadcast` shares its
-- lock with other broadcasts, which are taken one after the other.
pub mod Invariant
pub mod Delivery
mod Tests
use iot_api.Common.{
  ℕ, zero, suc, ◌+◌, Bool, true, false, Option, none, some, List, [], ◌∷◌, ◌++◌, if◌then◌else◌, ltb,
  nat_eq, length,
}
use iot_api.Common.Int.{ℤ, pos, negsuc}
use iot_api.Models.{Event}

-- A buffered channel of events.
pub record Channel : Type 0 where
  pub buffer : List Event
  pub capacity : ℕ
  pub closed : Bool

-- `subscribers` lists the keys of the hub's set in the order in which `range` visits them.
pub record Hub : Type 0 where
  pub subscribers : List ℕ
  pub buffer_size : ℕ
  pub channels : ℕ → Channel
  -- The next channel to make has this reference.
  pub next : ℕ

-- A size that is not positive means 16.
unfoldable pub buffer_size_of : ℤ → ℕ
buffer_size_of (pos zero) = 16
buffer_size_of (pos (suc n)) = suc n
buffer_size_of (negsuc n) = 16

unfoldable pub new_hub : ℤ → (ℕ → Channel) → Hub
new_hub size channels = record {
  subscribers = [];
  buffer_size = buffer_size_of size;
  channels = channels;
  next = 0;
}

-- The heap with one channel changed.
abbrev pub set_channel : (ℕ → Channel) → ℕ → Channel → ℕ → Channel
set_channel channels ch c j = if nat_eq ch j then c else channels j

unfoldable pub subscribe : Hub → Hub × ℕ
subscribe h = (
  record h {
    subscribers = h.next ∷ h.subscribers;
    channels =
        set_channel h.channels h.next
          (record { buffer = []; capacity = h.buffer_size; closed = false });
    next = suc h.next;
  },
  h.next,
)

unfoldable pub is_subscribed : ℕ → List ℕ → Bool
is_subscribed ch [] = false
is_subscribed ch (c ∷ subscribers) = if nat_eq c ch then true else is_subscribed ch subscribers

-- `delete(h.subscribers, ch)`.
unfoldable pub remove : ℕ → List ℕ → List ℕ
remove ch [] = []
remove ch (c ∷ subscribers) =
    let rest = remove ch subscribers in if nat_eq c ch then rest else c ∷ rest

unfoldable pub close_channel : Channel → Option Channel
close_channel c = if c.closed then none else some (record c { closed = true })

unfoldable pub unsubscribe : ℕ → Hub → Option Hub
unsubscribe ch h =
    if is_subscribed ch h.subscribers
    then elim (close_channel (h.channels ch)) [
      | none ↦ none
      | some c ↦ some (record h {
        subscribers = remove ch h.subscribers;
        channels = set_channel h.channels ch c;
      })
    ]
    else some h

-- `select { case ch <- event: default: }`.
unfoldable pub try_send : Event → Channel → Option Channel
try_send event c =
    if c.closed
    then none
    else some (
        if ltb (length c.buffer) c.capacity
        then record c { buffer = c.buffer ++ event ∷ [] }
        else c)

-- `for ch := range h.subscribers`.
unfoldable pub send_all : Event → List ℕ → (ℕ → Channel) → Option (ℕ → Channel)
send_all event [] channels = some channels
send_all event (ch ∷ subscribers) channels = elim (try_send event (channels ch)) [
  | none ↦ none
  | some c ↦ send_all event subscribers (set_channel channels ch c)
]

abbrev pub with_channels : Hub → Option (ℕ → Channel) → Option Hub
with_channels h none = none
with_channels h (some channels) = some (record h { channels = channels })

unfoldable pub broadcast : Event → Hub → Option Hub
broadcast event h = with_channels h (send_all event h.subscribers h.channels)

unfoldable pub subscriber_count : Hub → ℕ
subscriber_count h = length h.subscribers

-- `ev, ok := <-ch` by a subscriber: the oldest event, if one is buffered.
unfoldable pub receive : ℕ → Hub → Hub × Option Event
receive ch h = elim ((h.channels ch).buffer) [
  | [] ↦ (h, none)
  | event ∷ rest ↦ (
    record h { channels = set_channel h.channels ch (record (h.channels ch) { buffer = rest }) },
    some event,
  )
]
