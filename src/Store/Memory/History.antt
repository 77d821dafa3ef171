-- ===== src/Store/Memory/History.antt =====
-- What `AddTelemetry` retains and `GetTelemetry` returns (internal/store/store.go).
use mathlib.Core.Path.{ap₂, subst}
use mathlib.Core.List.{append-nil, append_assoc}
use iot_api.Common.{
  String, ◌≡◌, sym, ap, ◌∙◌, ◌≤◌, ◌↔◌, Bool, true, false, none, List, [], ◌∷◌, ◌++◌, arith, ◌==◌,
  eq_iff, map, filter_b, filter_b-append, In, In-filter_b, inl, inr, err, not_found, Option-cases,
  ◌≢◌, ◌⊎◌,
}
use iot_api.Common.Int.{ℤ, pos}
use iot_api.Common.GoMap.{lookup, lookup_or, lookup-insert}
use iot_api.GoTime.{Time, is_zero, zero_time}
use iot_api.Models.{Telemetry}
use iot_api.Store.Memory.{MemoryStore, newest, add_telemetry, get_telemetry, reported_since}
use iot_api.Store.Memory.Window.{
  Within, Within-nil, Latest, newest-Latest, newest_of_Within, newest-append, newest-Within,
}
use iot_api.Store.Memory.Calls.{reports, call, run}
use iot_api.Store.Memory.Valid.{IsValid}

-- The points stored for a device.
abbrev pub series : String → MemoryStore → List Telemetry
series id s = lookup_or [] id s.telemetry

abbrev pub is_from : String → Telemetry → Bool
is_from id t = t.device_id == id

-- A stored series fits the window.
series-Within : (id : String) (s : MemoryStore) → IsValid s → Within s.max_history (series id s)
series-Within id s v = elim (Option-cases (lookup id s.telemetry)) [
  | inl e ↦ rw (e, lookup_or) (Within-nil Telemetry s.max_history)
  | inr (ts, e) ↦ rw (e, lookup_or) (v.series.at id ts e).within
]

-- One report of a registered device slides its own window and no other.
series-add_telemetry :
    (id : String) (t : Telemetry) (s : MemoryStore)
    → lookup id s.devices ≢ none
    → newest s.max_history (series id s) ≡ series id s
    → series id (add_telemetry t s).1
      ≡ newest s.max_history (series id s ++ filter_b (is_from id) (t ∷ []))
unfolding add_telemetry
series-add_telemetry id t s reg fits = ground (
  arith,
  eq_iff t.device_id id,
  append-nil (series id s),
  lookup-insert t.device_id id
      (newest s.max_history (lookup_or [] t.device_id s.telemetry ++ t ∷ [])) s.telemetry,
)

devices-add_telemetry :
    (t : Telemetry) (s : MemoryStore) → (add_telemetry t s).1.devices ≡ s.devices
unfolding add_telemetry
devices-add_telemetry t s = ground arith

max_history-add_telemetry :
    (t : Telemetry) (s : MemoryStore) → (add_telemetry t s).1.max_history ≡ s.max_history
unfolding add_telemetry
max_history-add_telemetry t s = ground arith

still_fits :
    (id : String) (t : Telemetry) (s : MemoryStore)
    → lookup id s.devices ≢ none
    → newest s.max_history (series id s) ≡ series id s
    → let s' = (add_telemetry t s).1 in newest s'.max_history (series id s') ≡ series id s'
still_fits id t s reg fits =
    let kept = series id s ++ filter_b (is_from id) (t ∷ []) in
    rw (max_history-add_telemetry, series-add_telemetry id t s reg fits)
      (newest_of_Within s.max_history _ (newest-Within s.max_history kept))

series-reports :
    (id : String) (ts : List Telemetry) (s : MemoryStore)
    → lookup id s.devices ≢ none
    → newest s.max_history (series id s) ≡ series id s
    → series id (run (map reports ts) s)
      ≡ newest s.max_history (series id s ++ filter_b (is_from id) ts)
unfolding run call
series-reports id [] s reg fits = sym (ap (newest s.max_history) (append-nil (series id s)) ∙ fits)
series-reports id (t ∷ ts) s reg fits =
    let s' = (add_telemetry t s).1 in
    let old = series id s in
    let new = filter_b (is_from id) (t ∷ []) in
    let rest = filter_b (is_from id) ts in
    series-reports id ts s' (rw devices-add_telemetry reg) (still_fits id t s reg fits)
    ∙ ap₂ (λ n xs. newest n (xs ++ rest)) (max_history-add_telemetry t s)
        (series-add_telemetry id t s reg fits)
    ∙ newest-append s.max_history (old ++ new) rest
    ∙ ap (newest s.max_history) (
        append_assoc old new rest
        ∙ ap (λ xs. old ++ xs) (sym (filter_b-append (is_from id) (t ∷ []) ts)))

reported_since-iff-or :
    (since : Time) (t : Telemetry)
    → (reported_since since t ≡ true) ↔ ((since ≡ zero_time) ⊎ (since ≤ t.timestamp))
unfolding is_zero
reported_since-iff-or since t = (λ e. ground (arith, e), λ e. ground (arith, e))

-- In a well-formed store, however the reports of many devices interleave, what `GetTelemetry`
-- returns for a registered device is decided by its own points, those stored before and those
-- reported since, in the order of arrival: the last `max_history` of them are kept; of these the test
-- `wanted` takes the ones at or after `since`, or all of them for the zero time; of these the last
-- `limit` are returned. A bound that is not positive bounds nothing, and one that is positive leaves
-- exactly as many as it says, or everything where that is fewer.
pub get_telemetry-reports :
    (id : String) (since : Time) (limit : ℤ) (ts : List Telemetry) (s : MemoryStore)
    → IsValid s
    → lookup id s.devices ≢ none
    → (wanted : Telemetry → Bool) × (kept : List Telemetry) × ((t : Telemetry)
        → (wanted t ≡ true) ↔ ((since ≡ zero_time) ⊎ (since ≤ t.timestamp)))
      × Latest s.max_history (series id s ++ filter_b (λ t. t.device_id == id) ts) kept
      × Latest limit (filter_b wanted kept) (get_telemetry id since limit (run (map reports ts) s))
unfolding get_telemetry
get_telemetry-reports id since limit ts s v reg =
    let own = series id s ++ filter_b (is_from id) ts in
    let kept = newest s.max_history own in
    let wanted = reported_since since in
    (
      wanted,
      kept,
      reported_since-iff-or since,
      newest-Latest s.max_history own,
      subst (λ xs. Latest limit (filter_b wanted kept) (newest limit (filter_b wanted xs)))
          (sym
            (series-reports id ts s reg (newest_of_Within s.max_history _ (series-Within id s v))))
          (newest-Latest limit (filter_b wanted kept)),
    )

reported_since_iff :
    (since : Time) (t : Telemetry)
    → is_zero since ≡ false
    → (reported_since since t ≡ true) ↔ (since ≤ t.timestamp)
reported_since_iff since t h = (λ e. ground arith, λ l. ground arith)

-- For a `since` that is not the zero time and without a limit, a point is returned exactly if it is
-- stored for the device and not older than `since`.
In-get_telemetry :
    (id : String) (since : Time) (t : Telemetry) (s : MemoryStore)
    → is_zero since ≡ false
    → In t (get_telemetry id since (pos 0) s) ↔ (In t (series id s) × (since ≤ t.timestamp))
unfolding get_telemetry newest
In-get_telemetry id since t s h = (
  λ i.
      let kept = (In-filter_b (reported_since since) t (series id s)).0 i in
      (kept.0, (reported_since_iff since t h).0 kept.1),
  λ j.
      (In-filter_b (reported_since since) t (series id s)).1
        (j.0, (reported_since_iff since t h).1 j.1),
)

-- A point of a device that is not registered is refused.
add_telemetry-unknown :
    (t : Telemetry) (s : MemoryStore)
    → lookup t.device_id s.devices ≡ none
    → add_telemetry t s ≡ (err not_found, s)
unfolding add_telemetry
add_telemetry-unknown t s h = ground arith
