-- ===== src/Store/Mongo/Series.antt =====
-- The order and the bound of what `GetTelemetry` of internal/store/mongo.go returns.
mod Slices
use mathlib.Core.Path.{subst}
use mathlib.Core.List.{reverse}
use iot_api.Common.{
  filter_b, ℕ, zero, suc, ◌≤◌, ◌≡◌, refl, ap, sym, ◌∙◌, ◌⊎◌, ◌↔◌, inl, inr, String, Bool, true,
  some, List, [], ◌∷◌, map, take, drop, length, take-append-drop, In, In-append, In-append_left,
  arith, eq_iff,
}
use iot_api.Common.Int.{ℤ, pos, negsuc, leb_ℤ}
use iot_api.Common.Sort.{IsSorted}
use iot_api.Store.Mongo.Series.Slices.{
  length-take, length-take_full, length-reverse, In-reverse, count-take, count-filter_b,
  count-reverse, append-IsSorted, reverse-IsSorted,
}
use iot_api.GoTime.{Time, zero_time, is_zero}
use iot_api.Models.{Telemetry}
use iot_api.Store.Mongo.{MongoStore}
use iot_api.Store.Mongo.Collections.{
  Stored, ascending, descending, Driver, decode_all, decoded_or_nil, matching,
}
use iot_api.Store.Mongo.Documents.{TelemetryDoc, doc_to_telemetry}
use iot_api.Store.Mongo.Telemetry.{sample_since, newest, get_telemetry}
use iot_api.Store.Mongo.Server.{comes_before, Server}

pub decode_all-map : {D : Type 0} (xs : List (Stored D)) → decode_all (map some xs) ≡ xs
decode_all-map [] = refl
decode_all-map (x ∷ xs) = ap (◌∷◌ x) (decode_all-map xs)

-- The samples that documents hold.
abbrev pub samples : List (Stored TelemetryDoc) → List Telemetry
samples docs =
    map
      (λ x. record {
        device_id = x.document.device_id;
        timestamp = x.document.timestamp;
        metrics = x.document.metrics;
      })
      docs

-- No document is older than one before it.
abbrev pub InOrder : List (Stored TelemetryDoc) → Type 0
InOrder docs = IsSorted (comes_before ascending (λ t. t.timestamp)) docs

abbrev wanted : {Col : Type 0 → Type 0} → Driver Col → String → Time → Stored TelemetryDoc → Bool
wanted driver id since = matching (sample_since driver id since)

-- A sample of the device, at or after the given time as BSON keeps it, or whenever for the zero time.
abbrev pub Wanted :
    {Col : Type 0 → Type 0} → Driver Col → String → Time → Stored TelemetryDoc → Type 0
Wanted driver id since x =
    (x.document.device_id ≡ id)
    × ((since ≡ zero_time) ⊎ (driver.date_time since ≤ x.document.timestamp))

wanted_iff :
    {Col : Type 0 → Type 0} (driver : Driver Col) (id : String) (since : Time)
    (x : Stored TelemetryDoc)
    → (wanted driver id since x ≡ true) ↔ Wanted driver id since x
unfolding is_zero
wanted_iff driver id since x = (
  λ h. ((eq_iff x.document.device_id id).0 (ground (arith, h)), ground (arith, h)),
  λ (own, late). ground (arith, (eq_iff x.document.device_id id).1 own, late),
)

module _ {Col : Type 0 → Type 0} (driver : Driver Col) (server : Server driver) (id : String)
    (since : Time) (s : MongoStore Col) where
  -- On a server that answers every call, `GetTelemetry` with a positive limit returns what is stored
  -- of samples of the device at or after the given time, as BSON keeps it, or of all of them for the
  -- zero time: none more often than it is stored, in ascending order of their times, no more than
  -- the limit, and the newest. If a sample
  -- is left out, then as many as the limit are returned, and it is newer than none of them.
  pub get_telemetry-newest :
      (n : ℕ)
      → (docs : List (Stored TelemetryDoc)) × (get_telemetry driver id since (pos (suc n)) s
          ≡ samples docs)
        × InOrder docs
        × (length docs ≤ suc n)
        × ((q : Stored TelemetryDoc → Bool)
            → length (filter_b q docs) ≤ length (filter_b q (server.view s.telemetry)))
        × ((x : Stored TelemetryDoc)
            → In x docs
            → In x (server.view s.telemetry) × Wanted driver id since x)
        × ((x : Stored TelemetryDoc)
            → In x (server.view s.telemetry)
            → Wanted driver id since x
            → In x docs
              ⊎ ((length docs ≡ suc n)
                  × ((y : Stored TelemetryDoc)
                      → In y docs
                      → x.document.timestamp ≤ y.document.timestamp)))
  unfolding get_telemetry doc_to_telemetry
  get_telemetry-newest n =
      let (all, answer, sorted, members, counts) =
        server.found_all (wanted driver id since) (λ t. t.timestamp) descending (suc n)
          s.telemetry in
      let first = take (suc n) all in
      let later = drop (suc n) all in
      let whole = take-append-drop (suc n) all in
      let got : decoded_or_nil
            (driver.find (wanted driver id since) (λ t. t.timestamp) descending (suc n) s.telemetry)
          ≡ first =
        ap decoded_or_nil answer ∙ decode_all-map first in
      let (ordered, newer) =
        append-IsSorted _ first later (subst (IsSorted _) (sym whole) sorted) in
      (
        reverse first,
        ap (λ docs. samples (reverse docs)) got,
        reverse-IsSorted _ first ordered,
        omega (arith, length-reverse first, length-take (suc n) all),
        λ q. omega (
          arith,
          count-reverse q first,
          count-take q (suc n) all,
          counts q,
          count-filter_b q (wanted driver id since) (server.view s.telemetry),
        ),
        λ x i.
            let (stored, is_wanted) =
              (members x).0
                (subst (In x) whole (In-append_left x first later ((In-reverse x first).0 i))) in
            (stored, (wanted_iff driver id since x).0 is_wanted),
        λ x i w.
            let there = (members x).1 (i, (wanted_iff driver id since x).1 w) in
            elim (In-append x first later (subst (In x) (sym whole) there)) [
              | inl k ↦ inl ((In-reverse x first).1 k)
              | inr k ↦ inr (
                length-reverse first ∙ length-take_full x (suc n) all k,
                λ y j. ground (arith, newer y x ((In-reverse y first).0 j) k),
              )
            ],
      )

  newest_lem :
      (limit : ℤ)
      → leb_ℤ limit (pos 0) ≡ true
      → newest driver id since limit s.telemetry
        ≡ decoded_or_nil
            (driver.find (wanted driver id since) (λ t. t.timestamp) ascending 0 s.telemetry)
  newest_lem (pos zero) h = refl
  newest_lem (negsuc n) h = refl
  newest_lem (pos (suc n)) h = absurd (ground (arith, h))

  -- On a server that answers, `GetTelemetry` without a positive limit returns exactly the samples
  -- of the device since the given time, in ascending order of their times.
  get_telemetry-all :
      (limit : ℤ)
      → leb_ℤ limit (pos 0) ≡ true
      → (docs : List (Stored TelemetryDoc)) × (get_telemetry driver id since limit s ≡ samples docs)
        × InOrder docs
        × ((x : Stored TelemetryDoc)
            → In x docs ↔ (In x (server.view s.telemetry) × (wanted driver id since x ≡ true)))
  unfolding get_telemetry doc_to_telemetry
  get_telemetry-all limit h =
      let (all, answer, sorted, members, _) =
        server.found_all (wanted driver id since) (λ t. t.timestamp) ascending 0 s.telemetry in
      let got = ap decoded_or_nil answer ∙ decode_all-map all in
      (all, ap samples (newest_lem limit h ∙ got), sorted, members)
