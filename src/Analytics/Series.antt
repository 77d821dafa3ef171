-- ===== src/Analytics/Series.antt =====
-- What `TimeSeries` of internal/analytics/analytics.go returns.
use mathlib.Core.List.{Perm}
use iot_api.Common.{String, ◌≡◌, refl, List, [], ◌∷◌, map, arith, Option-cases, inl, inr}
use iot_api.Common.GoMap.{lookup}
use iot_api.Common.Sort.{IsSorted, IsWeakOrder, sort_slice-perm, sort_slice-IsSorted}
use iot_api.Models.{Telemetry}
use iot_api.Analytics.{earlier, points_of, time_series}
use iot_api.Analytics.Summary.{values_of}

earlier-IsWeakOrder : IsWeakOrder earlier
earlier-IsWeakOrder = record { asym = λ p q h. ground arith; trans = λ p q r h k. ground arith }

value-points_of :
    (metric : String) (points : List Telemetry)
    → map (λ q. q.value) (points_of metric points) ≡ values_of metric points
unfolding points_of values_of
value-points_of metric [] = refl
value-points_of metric (p ∷ points) = elim (Option-cases (lookup metric p.metrics)) [
  | inl e ↦ ground (arith, value-points_of metric points)
  | inr (v, e) ↦ ground (arith, value-points_of metric points)
]

-- The series of a metric holds one point for each value of the metric, and its timestamps do not
-- fall.
time_series_lem :
    (metric : String) (points : List Telemetry)
    → Perm (time_series points metric) (points_of metric points)
      × (map (λ q. q.value) (points_of metric points) ≡ values_of metric points)
      × IsSorted earlier (time_series points metric)
unfolding time_series
time_series_lem metric points = (
  sort_slice-perm earlier (points_of metric points),
  value-points_of metric points,
  sort_slice-IsSorted earlier earlier-IsWeakOrder (points_of metric points),
)
