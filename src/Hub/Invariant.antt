-- ===== src/Hub/Invariant.antt =====
-- The hub of internal/realtime/hub.go never panics.
use iot_api.Common.{
  ℕ, ◌≤◌, ◌<◌, ◌≡◌, ◌≢◌, refl, inl, inr, true, false, some, List, [], ◌∷◌, ◌++◌, arith,
  if◌then◌else◌, ltb, length, In, ◌↔◌, Bool-cases,
}
use iot_api.Models.{Event}
use iot_api.Hub.{
  Channel, Hub, set_channel, subscribe, is_subscribed, remove, close_channel, unsubscribe, try_send,
  send_all,
}

-- No reference stands twice.
abbrev pub Distinct : List ℕ → Type 0
Distinct [] = Unit
Distinct (x ∷ xs) = (¬ In x xs) × Distinct xs

-- The subscribers are a set of channels that the hub made and has not closed, and no channel holds
-- more than its capacity.
pub record IsOpen (h : Hub) : Type 0 where
  pub distinct : Distinct h.subscribers
  pub open_channel : (ch : ℕ) → In ch h.subscribers → (h.channels ch).closed ≡ false
  pub made : (ch : ℕ) → In ch h.subscribers → ch < h.next
  pub bounded : (ch : ℕ) → ch < h.next → length (h.channels ch).buffer ≤ (h.channels ch).capacity

pub In-remove : (ch j : ℕ) (xs : List ℕ) → In j (remove ch xs) → In j xs × (ch ≢ j)
unfolding remove
In-remove ch j [] i = absurd i
In-remove ch j (x ∷ xs) i = ground (arith, In-remove ch j xs)

remove-Distinct : (ch : ℕ) (xs : List ℕ) → Distinct xs → Distinct (remove ch xs)
unfolding remove
remove-Distinct ch [] d = tt
remove-Distinct ch (x ∷ xs) d = ground (arith, remove-Distinct ch xs d.1, In-remove ch x xs)

pub is_subscribed_iff : (ch : ℕ) (xs : List ℕ) → (is_subscribed ch xs ≡ true) ↔ In ch xs
unfolding is_subscribed
is_subscribed_iff ch [] = (λ h. ground arith, λ i. absurd i)
is_subscribed_iff ch (x ∷ xs) =
    let ih = is_subscribed_iff ch xs in (λ h. ground (arith, ih.0), λ i. ground (arith, ih.1))

pub subscribe-IsOpen : (h : Hub) → IsOpen h → IsOpen (subscribe h).0
unfolding subscribe
subscribe-IsOpen h v = record {
  distinct = (λ i. omega (arith, v.made h.next i), v.distinct);
  open_channel = λ ch i. ground (arith, v.open_channel ch, v.made ch);
  made = λ ch i. ground (arith, v.made ch);
  bounded = λ ch l. ground (arith, v.bounded ch);
}

-- Unsubscribing closes an open channel, or does nothing.
pub unsubscribe-IsOpen :
    (ch : ℕ) (h : Hub) → IsOpen h → (h' : Hub) × (unsubscribe ch h ≡ some h') × IsOpen h'
unfolding unsubscribe close_channel
unsubscribe-IsOpen ch h v = elim (Bool-cases (is_subscribed ch h.subscribers)) [
  | inr e ↦ (h, ground arith, v)
  | inl e ↦ (
    record h {
      subscribers = remove ch h.subscribers;
      channels = set_channel h.channels ch (record (h.channels ch) { closed = true });
    },
    ground (arith, v.open_channel ch ((is_subscribed_iff ch h.subscribers).0 e)),
    record {
      distinct = remove-Distinct ch h.subscribers v.distinct;
      open_channel = λ j i.
          let (old, other) = In-remove ch j h.subscribers i in ground (arith, v.open_channel j old);
      made = λ j i. v.made j (In-remove ch j h.subscribers i).0;
      bounded = λ j l. ground (arith, v.bounded j l);
    },
  )
]

-- What a subscriber's channel is after an event: the event is at its end, unless it was full.
unfoldable pub offered : Event → Channel → Channel
offered event c =
    if ltb (length c.buffer) c.capacity then record c { buffer = c.buffer ++ event ∷ [] } else c

pub send_all_lem :
    (event : Event) (xs : List ℕ) (channels : ℕ → Channel)
    → Distinct xs
    → ((ch : ℕ) → In ch xs → (channels ch).closed ≡ false)
    → (channels' : ℕ → Channel) × (send_all event xs channels ≡ some channels')
      × ((j : ℕ)
          → channels' j ≡ (if is_subscribed j xs then offered event (channels j) else channels j))
unfolding send_all is_subscribed try_send offered
send_all_lem event [] channels d o = (channels, refl, λ j. refl)
send_all_lem event (x ∷ xs) channels d o =
    let next = set_channel channels x (offered event (channels x)) in
    let (channels', sent, at) =
      send_all_lem event xs next d.1 (λ ch i. ground (arith, o ch (inr i))) in
    (
      channels',
      ground (arith, o x (inl refl)),
      λ j. ground (arith, at j, d.0, (is_subscribed_iff j xs).0),
    )
