-- ===== src/Hub/Delivery.antt =====
-- What the subscribers of internal/realtime/hub.go receive.
use mathlib.Core.Path.{subst}
use mathlib.Core.List.{append-nil, append_assoc}
use iot_api.Common.{
  ℕ, ◌≤◌, ◌≡◌, refl, sym, ap, ◌∙◌, ◌⊎◌, inl, inr, Option, none, some, List, [], ◌∷◌, ◌++◌, arith,
  if◌then◌else◌, ltb, length, length-append, take, take_of_le, take-append_left, map, In,
  Bool-cases,
}
use iot_api.Common.Int.{ℤ}
use iot_api.Models.{Event}
use iot_api.Hub.{
  Channel, Hub, new_hub, subscribe, is_subscribed, unsubscribe, broadcast, receive, with_channels,
}
use iot_api.Hub.Invariant.{
  IsOpen, offered, send_all_lem, is_subscribed_iff, subscribe-IsOpen, unsubscribe-IsOpen,
}

-- A broadcast on an open hub returns. It offers the event to the channel of every subscriber once,
-- which takes it unless it is full, and changes no other channel and no subscription.
pub broadcast_lem :
    (event : Event) (h : Hub)
    → IsOpen h
    → (h' : Hub) × (broadcast event h ≡ some h')
      × IsOpen h'
      × (h'.subscribers ≡ h.subscribers)
      × ((ch : ℕ)
          → h'.channels ch ≡ (
              if is_subscribed ch h.subscribers
              then offered event (h.channels ch)
              else h.channels ch))
unfolding broadcast offered
broadcast_lem event h v =
    let (channels', sent, at) =
      send_all_lem event h.subscribers h.channels v.distinct v.open_channel in
    (
      record h { channels = channels' },
      rw (sent, with_channels),
      record {
        distinct = v.distinct;
        open_channel = λ ch i. ground (arith, at ch, v.open_channel ch i);
        made = v.made;
        bounded = λ ch l.
            ground
              (arith, at ch, v.bounded ch l, length-append (h.channels ch).buffer (event ∷ []));
      },
      refl,
      at,
    )

buffer_cases : (xs : List Event) → (xs ≡ []) ⊎ ((x : Event) × (rest : List Event) × (xs ≡ x ∷ rest))
buffer_cases [] = inl refl
buffer_cases (x ∷ rest) = inr (x, rest, refl)

pub receive-IsOpen : (ch : ℕ) (h : Hub) → IsOpen h → IsOpen (receive ch h).0
unfolding receive
receive-IsOpen ch h v = elim (buffer_cases (h.channels ch).buffer) [
  | inl e ↦ rw (e, receive) v
  | inr (event, rest, e) ↦
      rw (e, receive)
        (record {
          distinct = v.distinct;
          open_channel = λ j i. ground (arith, v.open_channel j i);
          made = v.made;
          bounded = λ j l. ground (arith, v.bounded j l);
        })
]

-- The calls on a hub, and the receipts of its subscribers.
pub data Call : Type 0 where
  subscribes : Call
  unsubscribes : ℕ → Call
  broadcasts : Event → Call
  receives : ℕ → Call

unfoldable pub call : Call → Hub → Option Hub
call subscribes h = some (subscribe h).0
call (unsubscribes ch) h = unsubscribe ch h
call (broadcasts event) h = broadcast event h
call (receives ch) h = some (receive ch h).0

unfoldable pub run : List Call → Hub → Option Hub
run [] h = some h
run (c ∷ cs) h = elim (call c h) [ none ↦ none | some h' ↦ run cs h' ]

pub call-IsOpen : (c : Call) (h : Hub) → IsOpen h → (h' : Hub) × (call c h ≡ some h') × IsOpen h'
unfolding call
call-IsOpen subscribes h v = ((subscribe h).0, refl, subscribe-IsOpen h v)
call-IsOpen (unsubscribes ch) h v = unsubscribe-IsOpen ch h v
call-IsOpen (broadcasts event) h v = let (h', e, v', _, _) = broadcast_lem event h v in (h', e, v')
call-IsOpen (receives ch) h v = ((receive ch h).0, refl, receive-IsOpen ch h v)

run-IsOpen_of :
    (cs : List Call) (h : Hub) → IsOpen h → (h' : Hub) × (run cs h ≡ some h') × IsOpen h'
unfolding run
run-IsOpen_of [] h v = (h, refl, v)
run-IsOpen_of (c ∷ cs) h v =
    let (h1, e, v1) = call-IsOpen c h v in
    let (h2, f, v2) = run-IsOpen_of cs h1 v1 in (h2, rw (e, run) f, v2)

-- Whatever the calls on a new hub, in whatever order, none of them panics: nothing is sent on a
-- closed channel and none is closed twice. The subscribers stay distinct and open, and no channel
-- ever holds more than its capacity.
pub run-IsOpen :
    (size : ℤ) (channels : ℕ → Channel) (cs : List Call)
    → (h : Hub) × (run cs (new_hub size channels) ≡ some h) × IsOpen h
unfolding new_hub
run-IsOpen size channels cs = run-IsOpen_of cs (new_hub size channels) (record {
  distinct = tt;
  open_channel = λ ch i. absurd i;
  made = λ ch i. absurd i;
  bounded = λ ch l. absurd (omega arith);
})

take-offered :
    (event : Event) (events : List Event) (c : Channel)
    → length c.buffer ≤ c.capacity
    → take (offered event c).capacity ((offered event c).buffer ++ events)
      ≡ take c.capacity (c.buffer ++ event ∷ events)
unfolding offered
take-offered event events c h = elim (Bool-cases (ltb (length c.buffer) c.capacity)) [
  | inl e ↦ rw (e, offered) (ap (take c.capacity) (append_assoc c.buffer (event ∷ []) events))
  | inr e ↦
      let full : length c.buffer ≡ c.capacity = ground arith in
      rw (e, offered)
        (take-append_left c.capacity c.buffer events full
          ∙ sym (take-append_left c.capacity c.buffer (event ∷ events) full))
]

-- On an open hub, events that are broadcast while a subscriber does not read arrive in order, up to
-- its capacity; those that find its buffer full are dropped.
run-broadcasts :
    (ch : ℕ) (events : List Event) (h : Hub)
    → IsOpen h
    → In ch h.subscribers
    → (h' : Hub) × (run (map broadcasts events) h ≡ some h')
      × ((h'.channels ch).buffer ≡ take (h.channels ch).capacity ((h.channels ch).buffer ++ events))
unfolding run call
run-broadcasts ch [] h v i = (
  h,
  refl,
  sym (
      take_of_le _ _ (ground (arith, v.bounded ch (v.made ch i), append-nil (h.channels ch).buffer))
      ∙ append-nil _),
)
run-broadcasts ch (event ∷ events) h v i =
    let (h1, sent, v1, same, at) = broadcast_lem event h v in
    let (h2, ran, got) = run-broadcasts ch events h1 v1 (subst (In ch) (sym same) i) in
    let c = h.channels ch in
    let now : h1.channels ch ≡ offered event c =
      ground (arith, at ch, (is_subscribed_iff ch h.subscribers).1 i) in
    (
      h2,
      rw (sent, run) ran,
      got
          ∙ ap (λ d. take d.capacity (d.buffer ++ events)) now
          ∙ take-offered event events c (v.bounded ch (v.made ch i)),
    )
