-- ===== src/Analytics/Extremes.antt =====
-- The minimum and maximum of internal/analytics/analytics.go, by the order of the numbers among the
-- doubles.
use mathlib.Core.Path.{subst}
use mathlib.Core.Option.{some-injective}
use iot_api.Common.{
  String, ◌≡◌, refl, sym, ap, ◌∙◌, inl, inr, Bool, true, false, some, List, [], ◌∷◌, if◌then◌else◌,
  All, In, Bool-cases,
}
use iot_api.Common.GoMap.{lookup}
use iot_api.Float64
use iot_api.Float64.{Float64}
use iot_api.Models.{Telemetry, MetricStats}
use iot_api.Analytics.{Arithmetic, aggregate}
use iot_api.Analytics.Summary.{
  values_of, HasMaps, best, least, greatest, summary_of, lookup-aggregate,
}

abbrev pub IsNumber : Float64 → Type 0
IsNumber x = Float64.is_nan x ≡ false

-- `m` is one of the values, and not behind any.
abbrev pub Extreme : (Float64 → Float64 → Bool) → Float64 → List Float64 → Type 0
Extreme ord m vs = All (λ w. ord m w ≡ true) vs × In m vs

module _ (beats ord : Float64 → Float64 → Bool)
    (ord_refl : (x : Float64) → IsNumber x → ord x x ≡ true)
    (ord_trans : (x y z : Float64) → ord x y ≡ true → ord y z ≡ true → ord x z ≡ true)
    (ord_of_beats : (x y : Float64) → beats x y ≡ true → ord x y ≡ true)
    (ord_of_not : (x y : Float64)
      → IsNumber x
      → IsNumber y
      → beats x y ≡ false
      → ord y x ≡ true) where
  best-Extreme :
      (v : Float64) (vs : List Float64)
      → All IsNumber (v ∷ vs)
      → Extreme ord (best beats v vs) (v ∷ vs)
  best-Extreme v [] h = ((ord_refl v h.0, tt), inl refl)
  best-Extreme v (w ∷ vs) h = elim (Bool-cases (beats w v)) [
    | inl e ↦
        let (all, member) = best-Extreme w vs h.1 in
        subst (λ m. Extreme ord m (v ∷ w ∷ vs))
          (ap (λ b. best beats (if b then w else v) vs) (sym e))
          ((ord_trans _ w v all.0 (ord_of_beats w v e), all), inr member)
    | inr e ↦
        let (all, member) = best-Extreme v vs (h.0, h.1.1) in
        subst (λ m. Extreme ord m (v ∷ w ∷ vs))
          (ap (λ b. best beats (if b then w else v) vs) (sym e))
          (
            (all.0, (ord_trans _ v w all.0 (ord_of_not w v h.1.0 h.0 e), all.1)),
            elim member [ inl f ↦ inl f | inr i ↦ inr (inr i) ],
          )
  ]

-- The least of some numbers is one of them and at most each, and the greatest is one of them and at
-- least each.
pub extremes_lem :
    (v : Float64) (vs : List Float64)
    → All IsNumber (v ∷ vs)
    → Extreme Float64.le (least v vs) (v ∷ vs)
      × Extreme (λ m w. Float64.le w m) (greatest v vs) (v ∷ vs)
extremes_lem v vs h = (
  best-Extreme Float64.lt Float64.le Float64.le_refl Float64.le_trans Float64.le_of_lt
      Float64.le_of_not-lt v vs h,
  best-Extreme (λ w u. Float64.lt u w) (λ m w. Float64.le w m) Float64.le_refl
      (λ x y z p q. Float64.le_trans z y x q p) (λ x y. Float64.le_of_lt y x)
      (λ x y p q. Float64.le_of_not-lt y x q p) v vs h,
)

summary-Extreme :
    (arithmetic : Arithmetic) (metric : String) (vs : List Float64) (s : MetricStats)
    → All IsNumber vs
    → summary_of arithmetic metric vs ≡ some s
    → Extreme Float64.le s.min vs × Extreme (λ m w. Float64.le w m) s.max vs
summary-Extreme arithmetic metric [] s numbers e = cc
summary-Extreme arithmetic metric (v ∷ vs) s numbers e =
    subst (λ t. Extreme Float64.le t.min (v ∷ vs) × Extreme (λ m w. Float64.le w m) t.max (v ∷ vs))
      (some-injective _ s e) (extremes_lem v vs numbers)

-- Where no point holds a metric twice and no reading of the metric is a NaN, the minimum and
-- maximum that `Aggregate` reports are readings of it, and every reading lies between them.
aggregate-Extreme :
    (arithmetic : Arithmetic) (metric : String) (points : List Telemetry) (s : MetricStats)
    → HasMaps points
    → All IsNumber (values_of metric points)
    → lookup metric (aggregate arithmetic points) ≡ some s
    → Extreme Float64.le s.min (values_of metric points)
      × Extreme (λ m w. Float64.le w m) s.max (values_of metric points)
aggregate-Extreme arithmetic metric points s u numbers found =
    summary-Extreme arithmetic metric (values_of metric points) s numbers
      (sym (lookup-aggregate arithmetic metric points u) ∙ found)
