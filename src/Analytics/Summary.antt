-- ===== src/Analytics/Summary.antt =====
-- What `Aggregate` of internal/analytics/analytics.go computes for each metric.

use mathlib.Core.List.{foldl}
use iot_api.Common.{
  ◌+◌, String, ◌≡◌, refl, ap, ◌∙◌, inl, inr, Bool, Option, none, some, List, [], ◌∷◌, arith,
  if◌then◌else◌, eq_iff, length, All, Option-cases,
}
use iot_api.Common.GoMap.{GoMap, IsMap, lookup, lookup-insert}
use iot_api.Float64
use iot_api.Float64.{Float64}
use iot_api.Models.{Telemetry, MetricStats}
use iot_api.Analytics.{
  Arithmetic, zero_float, new_stats, tally, found_or_new, observe, observe_metrics, observe_points,
  with_average, averages, aggregate,
}

-- The values of a metric in the points that have it, in the order of the points.
unfoldable pub values_of : String → List Telemetry → List Float64
values_of metric [] = []
values_of metric (p ∷ points) = elim (lookup metric p.metrics) [
  | none ↦ values_of metric points
  | some v ↦ v ∷ values_of metric points
]

-- Every point's metrics have no key twice, as a Go map has not.
abbrev pub HasMaps : List Telemetry → Type 0
HasMaps = All (λ p. IsMap p.metrics)

-- The last of some values.
abbrev pub last_of : Float64 → List Float64 → Float64
last_of v [] = v
last_of v (w ∷ vs) = last_of w vs

-- The first of some values that no later one beats.
abbrev pub best : (Float64 → Float64 → Bool) → Float64 → List Float64 → Float64
best beats v [] = v
best beats v (w ∷ vs) = best beats (if beats w v then w else v) vs

-- The least and the greatest, as the comparisons of doubles decide.
abbrev pub least : Float64 → List Float64 → Float64
least = best Float64.lt

abbrev pub greatest : Float64 → List Float64 → Float64
greatest = best (λ w v. Float64.lt v w)

module _ (arithmetic : Arithmetic) where
  open arithmetic use {add, div, of_int}

  -- The statistics after one more value, or none.
  abbrev noted : String → Option MetricStats → Option Float64 → Option MetricStats
  noted metric s none = s
  noted metric s (some v) = some (tally arithmetic v (found_or_new arithmetic metric v s))

  lookup-observe_metrics :
      (metric : String) (metrics : GoMap Float64) (acc : GoMap MetricStats)
      → IsMap metrics
      → lookup metric (observe_metrics arithmetic metrics acc)
        ≡ noted metric (lookup metric acc) (lookup metric metrics)
  unfolding observe_metrics observe lookup
  lookup-observe_metrics metric [] acc u = refl
  lookup-observe_metrics metric ((j, v) ∷ metrics) acc u = ground (
    arith,
    lookup-observe_metrics metric metrics (observe arithmetic j v acc) u.1,
    lookup-insert j metric (tally arithmetic v (found_or_new arithmetic j v (lookup j acc))) acc,
    eq_iff j metric,
  )

  -- The statistics after the values of a list, in order.
  abbrev after_values : String → Option MetricStats → List Float64 → Option MetricStats
  after_values metric s [] = s
  after_values metric s (v ∷ vs) = after_values metric (noted metric s (some v)) vs

  lookup-observe_points :
      (metric : String) (points : List Telemetry) (acc : GoMap MetricStats)
      → HasMaps points
      → lookup metric (observe_points arithmetic points acc)
        ≡ after_values metric (lookup metric acc) (values_of metric points)
  unfolding observe_points values_of
  lookup-observe_points metric [] acc u = refl
  lookup-observe_points metric (p ∷ points) acc u = elim (Option-cases (lookup metric p.metrics)) [
    | inl e ↦ ground (
      arith,
      lookup-observe_points metric points (observe_metrics arithmetic p.metrics acc) u.1,
      lookup-observe_metrics metric p.metrics acc u.0,
    )
    | inr (v, e) ↦ ground (
      arith,
      lookup-observe_points metric points (observe_metrics arithmetic p.metrics acc) u.1,
      lookup-observe_metrics metric p.metrics acc u.0,
    )
  ]

  abbrev map_stats : Option MetricStats → Option MetricStats
  map_stats none = none
  map_stats (some s) = some (with_average arithmetic s)

  lookup-averages :
      (metric : String) (acc : GoMap MetricStats)
      → lookup metric (averages arithmetic acc) ≡ map_stats (lookup metric acc)
  unfolding averages lookup
  lookup-averages metric [] = refl
  lookup-averages metric ((j, s) ∷ acc) = ground (arith, lookup-averages metric acc)

  after_some :
      (metric : String) (s : MetricStats) (vs : List Float64)
      → after_values metric (some s) vs
        ≡ some (record {
          metric = s.metric;
          count = s.count + length vs;
          min = least s.min vs;
          max = greatest s.max vs;
          avg = s.avg;
          sum = foldl add s.sum vs;
          last = last_of s.last vs;
        })
  unfolding tally
  after_some metric s [] = ground arith
  after_some metric s (v ∷ vs) = ground (arith, after_some metric (tally arithmetic v s) vs)

  -- The statistics of a metric whose values are `v ∷ vs`.
  abbrev pub summary : String → Float64 → List Float64 → MetricStats
  summary metric v vs = record {
    metric = metric;
    count = length (v ∷ vs);
    min = least v vs;
    max = greatest v vs;
    avg = div (foldl add zero_float (v ∷ vs)) (of_int (length (v ∷ vs)));
    sum = foldl add zero_float (v ∷ vs);
    last = last_of v vs;
  }

  abbrev pub summary_of : String → List Float64 → Option MetricStats
  summary_of metric [] = none
  summary_of metric (v ∷ vs) = some (summary metric v vs)

  summarised :
      (metric : String) (vs : List Float64)
      → map_stats (after_values metric none vs) ≡ summary_of metric vs
  unfolding tally with_average
  summarised metric [] = refl
  summarised metric (v ∷ vs) =
      ground
        (arith, after_some metric (tally arithmetic v (new_stats metric v)) vs, Float64.lt_irrefl v)

  -- Where no point holds a metric twice, as no Go map can, `Aggregate` has an entry for exactly the
  -- metrics that some point has. The entry counts the metric's values in all points, sums them from
  -- zero in the order of the points, divides the sum by the count, and holds the last value, and
  -- the least and the greatest by the order of doubles.
  pub lookup-aggregate :
      (metric : String) (points : List Telemetry)
      → HasMaps points
      → lookup metric (aggregate arithmetic points) ≡ summary_of metric (values_of metric points)
  unfolding aggregate lookup
  lookup-aggregate metric points u =
      lookup-averages metric (observe_points arithmetic points [])
      ∙ ap map_stats (lookup-observe_points metric points [] u)
      ∙ summarised metric (values_of metric points)
