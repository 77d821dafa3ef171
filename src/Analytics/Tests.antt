-- ===== src/Analytics/Tests.antt =====
-- Runs of internal/analytics/analytics.go on small examples.

use iot_api.Common.{ℕ, ◌≡◌, refl, List, [], ◌∷◌}
use iot_api.Common.GoMap.{lookup}
use iot_api.Float64.{Float64}
use iot_api.Models.{Telemetry}
use iot_api.Analytics.{Arithmetic, aggregate}
use iot_api.Analytics.Summary.{HasMaps, values_of, summary_of, lookup-aggregate}

-- 1.0, 2.0 and -1.0.
abbrev one : Float64
one = record { bits = 0x3ff0_0000_0000_0000 }

abbrev two : Float64
two = record { bits = 0x4000_0000_0000_0000 }

abbrev minus_one : Float64
minus_one = record { bits = 0xbff0_0000_0000_0000 }

abbrev point : ℕ → Float64 → Telemetry
point at value = record { device_id = "pump"; timestamp = at; metrics = ("t", value) ∷ [] }

abbrev points : List Telemetry
points = point 7 two ∷ point 5 minus_one ∷ point 6 one ∷ []

-- An arithmetic on the bits, enough for a run.
abbrev arithmetic : Arithmetic
arithmetic = record { add = λ x y. y; div = λ x y. x; of_int = λ n. record { bits = n } }

points-HasMaps : HasMaps points
unfolding lookup
points-HasMaps = ((refl, tt), ((refl, tt), ((refl, tt), tt)))

lookup-aggregate_example :
    lookup "t" (aggregate arithmetic points) ≡ summary_of arithmetic "t" (values_of "t" points)
lookup-aggregate_example = lookup-aggregate arithmetic "t" points points-HasMaps
