-- ===== src/Alerts.antt =====
-- internal/alerts/alerts.go: the rules of the alert engine and their evaluation. The engine's lock is
-- held for each whole method but `Evaluate`, which reads the rules once, so a method is one step.
pub mod Triggers
mod Tests
use iot_api.Common.{
  ℕ, suc, String, Bool, false, ◌&&◌, Option, none, some, List, [], ◌∷◌, ◌++◌, if◌then◌else◌, ◌==◌,
}
use iot_api.Common.GoMap.{lookup}
use iot_api.GoTime.{Time}
use iot_api.Float64
use iot_api.Float64.{Float64}
use iot_api.Models.{AlertRule, Alert, Telemetry}

pub record Engine : Type 0 where
  pub rules : List AlertRule

abbrev pub new_engine : List AlertRule → Engine
new_engine rules = record { rules = rules }

unfoldable pub add_rule : AlertRule → Engine → Engine
add_rule r e = record e { rules = e.rules ++ r ∷ [] }

-- What raising an alert draws: a fresh UUID and the time.
pub record AlertDraw : Type 0 where
  pub uuid : String
  pub now : Time

-- The cases of the operator; any other operator never holds.
unfoldable pub breached : Float64 → String → Float64 → Bool
breached value operator threshold =
    if operator == ">"
    then Float64.lt threshold value
    else if operator == ">="
    then Float64.le threshold value
    else if operator == "<"
    then Float64.lt value threshold
    else if operator == "<="
    then Float64.le value threshold
    else if operator == "=="
    then Float64.eq value threshold
    else false

-- The value of the rule's metric, if the sample has it and it breaches the rule.
abbrev pub if_breached : AlertRule → Option Float64 → Option Float64
if_breached rule none = none
if_breached rule (some value) =
    if breached value rule.operator rule.threshold then some value else none

abbrev pub triggering_value : Telemetry → AlertRule → Option Float64
triggering_value t rule = if_breached rule (lookup rule.metric t.metrics)

-- `fmt.Sprintf` of the message is a parameter, given the metric, value, operator and threshold.
module _ (sprintf : String → Float64 → String → Float64 → String) where
  abbrev pub alert_for : Telemetry → AlertRule → Float64 → AlertDraw → Alert
  alert_for t rule value draw = record {
    id = draw.uuid;
    device_id = t.device_id;
    metric = rule.metric;
    value = value;
    threshold = rule.threshold;
    severity = rule.severity;
    message = sprintf rule.metric value rule.operator rule.threshold;
    created_at = draw.now;
  }

  -- The loop of `Evaluate`; the n-th alert that is raised takes the n-th draw.
  unfoldable pub evaluate_rules : (ℕ → AlertDraw) → ℕ → Telemetry → List AlertRule → List Alert
  evaluate_rules draws n t [] = []
  evaluate_rules draws n t (rule ∷ rules) = elim (triggering_value t rule) [
    | none ↦ evaluate_rules draws n t rules
    | some value ↦ alert_for t rule value (draws n) ∷ evaluate_rules draws (suc n) t rules
  ]

  unfoldable pub evaluate : (ℕ → AlertDraw) → Telemetry → Engine → List Alert
  evaluate draws t e = evaluate_rules draws 0 t e.rules
