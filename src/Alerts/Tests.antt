-- ===== src/Alerts/Tests.antt =====
-- Runs of the alert engine of internal/alerts/alerts.go on small examples.
use iot_api.Common.{ℕ, String, [], ◌∷◌}
use iot_api.Float64.{Float64}
use iot_api.Models.{AlertRule, Telemetry}
use iot_api.Alerts.{Engine, AlertDraw, evaluate, new_engine}
use iot_api.Alerts.Triggers.{Evaluation, evaluate-Evaluation}

-- 1.0, 2.0 and a NaN.
abbrev one : Float64
one = record { bits = 0x3ff0_0000_0000_0000 }

abbrev two : Float64
two = record { bits = 0x4000_0000_0000_0000 }

abbrev rule : AlertRule
rule = record { metric = "temperature"; operator = ">"; threshold = one; severity = "warning" }

abbrev engine : Engine
engine = new_engine (rule ∷ record rule { operator = "<=" } ∷ rule ∷ [])

abbrev hot : Telemetry
hot = record { device_id = "pump"; timestamp = 5; metrics = ("temperature", two) ∷ [] }

abbrev sprintf : String → Float64 → String → Float64 → String
sprintf metric value operator threshold = metric

abbrev draws : ℕ → AlertDraw
draws n = record { uuid = "a"; now = n }

evaluate-Evaluation_example : Evaluation hot engine.rules (evaluate sprintf draws hot engine)
evaluate-Evaluation_example = evaluate-Evaluation sprintf draws hot engine
