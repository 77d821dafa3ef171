-- ===== src/Analytics.antt =====
-- internal/analytics/analytics.go: statistics over stored telemetry. The sum and quotient of doubles
-- are parameters; comparisons are those of `Float64`.
pub mod Summary
pub mod Extremes
pub mod Series
mod Tests
use iot_api.Common.{ℕ, ◌+◌, String, Bool, Option, none, some, List, [], ◌∷◌, if◌then◌else◌, ltb}
use iot_api.Common.Int.{ℤ, ltb_ℤ}
use iot_api.Common.GoMap.{GoMap, lookup, insert}
use iot_api.Common.Sort.{sort_slice}
use iot_api.GoTime.{unix_milli}
use iot_api.Float64
use iot_api.Float64.{Float64}
use iot_api.Models.{Telemetry, MetricStats}

-- The arithmetic of `float64`: `x + y`, `x / y` and the conversion `float64(n)`.
pub record Arithmetic : Type 0 where
  pub add : Float64 → Float64 → Float64
  pub div : Float64 → Float64 → Float64
  pub of_int : ℕ → Float64

-- The zero value of a `float64` field.
abbrev pub zero_float : Float64
zero_float = record { bits = 0 }

abbrev pub new_stats : String → Float64 → MetricStats
new_stats metric value = record {
  metric = metric;
  count = 0;
  min = value;
  max = value;
  avg = zero_float;
  sum = zero_float;
  last = zero_float;
}

module _ (arithmetic : Arithmetic) where
  open arithmetic use {add, div, of_int}

  -- The assignments to `s` in the inner loop of `Aggregate`.
  unfoldable pub tally : Float64 → MetricStats → MetricStats
  tally value s = record s {
    count = s.count + 1;
    sum = add s.sum value;
    last = value;
    min = if Float64.lt value s.min then value else s.min;
    max = if Float64.lt s.max value then value else s.max;
  }

  abbrev pub found_or_new : String → Float64 → Option MetricStats → MetricStats
  found_or_new metric value none = new_stats metric value
  found_or_new metric value (some s) = s

  -- One round of the inner loop: `acc[metric]` is found or made, and updated.
  unfoldable pub observe : String → Float64 → GoMap MetricStats → GoMap MetricStats
  observe metric value acc =
      insert metric (tally value (found_or_new metric value (lookup metric acc))) acc

  -- `for metric, value := range p.Metrics`.
  unfoldable pub observe_metrics : GoMap Float64 → GoMap MetricStats → GoMap MetricStats
  observe_metrics [] acc = acc
  observe_metrics ((metric, value) ∷ metrics) acc =
      observe_metrics metrics (observe metric value acc)

  -- `for _, p := range points`.
  unfoldable pub observe_points : List Telemetry → GoMap MetricStats → GoMap MetricStats
  observe_points [] acc = acc
  observe_points (p ∷ points) acc = observe_points points (observe_metrics p.metrics acc)

  unfoldable pub with_average : MetricStats → MetricStats
  with_average s = record s { avg = if ltb 0 s.count then div s.sum (of_int s.count) else s.avg }

  -- `for metric, s := range acc`.
  unfoldable pub averages : GoMap MetricStats → GoMap MetricStats
  averages [] = []
  averages ((metric, s) ∷ acc) = (metric, with_average s) ∷ averages acc

  unfoldable pub aggregate : List Telemetry → GoMap MetricStats
  aggregate points = averages (observe_points points [])

pub record Point : Type 0 where
  -- Unix milliseconds.
  pub timestamp : ℤ
  pub value : Float64

abbrev pub earlier : Point → Point → Bool
earlier p q = ltb_ℤ p.timestamp q.timestamp

abbrev pub keep_point : Telemetry → Option Float64 → List Point → List Point
keep_point p none rest = rest
keep_point p (some v) rest = record { timestamp = unix_milli p.timestamp; value = v } ∷ rest

-- The loop of `TimeSeries`.
unfoldable pub points_of : String → List Telemetry → List Point
points_of metric [] = []
points_of metric (p ∷ points) = keep_point p (lookup metric p.metrics) (points_of metric points)

unfoldable pub time_series : List Telemetry → String → List Point
time_series points metric = sort_slice earlier (points_of metric points)
