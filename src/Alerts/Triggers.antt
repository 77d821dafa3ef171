-- ===== src/Alerts/Triggers.antt =====
-- Which alerts `Evaluate` of internal/alerts/alerts.go raises.
use mathlib.Core.Path.{subst}
use iot_api.Common.{
  sym, ℕ, suc, String, ◌≡◌, ◌↔◌, ◌⊎◌, inl, inr, refl, true, false, none, some, List, [], ◌∷◌, arith,
  ◌==◌, eq_iff, Option-cases, Bool-cases,
}
use iot_api.Common.GoMap.{lookup}
use iot_api.Float64
use iot_api.Float64.{Float64}
use iot_api.Models.{AlertRule, Alert, Telemetry}
use iot_api.Alerts.{
  Engine, AlertDraw, breached, triggering_value, evaluate_rules, evaluate, alert_for,
}

-- What a rule's operator means.
pub data Breach (value : Float64) (operator : String) (threshold : Float64) : Type 0 where
  above : operator ≡ ">" → Float64.lt threshold value ≡ true → Breach value operator threshold
  at_least : operator ≡ ">=" → Float64.le threshold value ≡ true → Breach value operator threshold
  below : operator ≡ "<" → Float64.lt value threshold ≡ true → Breach value operator threshold
  at_most : operator ≡ "<=" → Float64.le value threshold ≡ true → Breach value operator threshold
  equals : operator ≡ "==" → Float64.eq value threshold ≡ true → Breach value operator threshold

breached_of_Breach :
    (value : Float64) (operator : String) (threshold : Float64)
    → Breach value operator threshold
    → breached value operator threshold ≡ true
unfolding breached
breached_of_Breach value operator threshold (above e h) = rw (e, breached) h
breached_of_Breach value operator threshold (at_least e h) = rw (e, breached) h
breached_of_Breach value operator threshold (below e h) = rw (e, breached) h
breached_of_Breach value operator threshold (at_most e h) = rw (e, breached) h
breached_of_Breach value operator threshold (equals e h) = rw (e, breached) h

Breach-of_breached :
    (value : Float64) (operator : String) (threshold : Float64)
    → breached value operator threshold ≡ true
    → Breach value operator threshold
unfolding breached
Breach-of_breached value operator threshold h = elim (Bool-cases (operator == ">")) [
  | inl p ↦ above ((eq_iff operator ">").0 p) (ground arith)
  | inr p ↦ elim (Bool-cases (operator == ">=")) [
    | inl q ↦ at_least ((eq_iff operator ">=").0 q) (ground arith)
    | inr q ↦ elim (Bool-cases (operator == "<")) [
      | inl r ↦ below ((eq_iff operator "<").0 r) (ground arith)
      | inr r ↦ elim (Bool-cases (operator == "<=")) [
        | inl u ↦ at_most ((eq_iff operator "<=").0 u) (ground arith)
        | inr u ↦ equals ((eq_iff operator "==").0 (ground arith)) (ground arith)
      ]
    ]
  ]
]

-- `breached` decides the meaning of the five operators, and no other operator is ever breached.
breached_iff :
    (value : Float64) (operator : String) (threshold : Float64)
    → (breached value operator threshold ≡ true) ↔ Breach value operator threshold
breached_iff value operator threshold =
    (Breach-of_breached value operator threshold, breached_of_Breach value operator threshold)

-- A rule whose reading or threshold is not a number is not breached, whatever its operator.
pub breached-nan :
    (value : Float64) (operator : String) (threshold : Float64)
    → (Float64.is_nan value ≡ true) ⊎ (Float64.is_nan threshold ≡ true)
    → breached value operator threshold ≡ false
unfolding breached Float64.lt Float64.le Float64.eq
breached-nan value operator threshold h = ground arith

-- An alert says of which sample and rule it was raised.
pub record Raised (t : Telemetry) (rule : AlertRule) (a : Alert) : Type 0 where
  pub device : a.device_id ≡ t.device_id
  pub metric : a.metric ≡ rule.metric
  pub reading : lookup rule.metric t.metrics ≡ some a.value
  pub threshold : a.threshold ≡ rule.threshold
  pub severity : a.severity ≡ rule.severity
  pub breach : Breach a.value rule.operator rule.threshold

-- The sample has the rule's metric, and its value breaches the rule.
abbrev pub Triggers : Telemetry → AlertRule → Type 0
Triggers t rule =
    (value : Float64) × (lookup rule.metric t.metrics ≡ some value)
    × Breach value rule.operator rule.threshold

-- Rules against the alerts that they raise, in their order.
pub data Evaluation (t : Telemetry) : List AlertRule → List Alert → Type 0 where
  done : Evaluation t [] []
  raises :
      (rule : AlertRule) (rules : List AlertRule) (a : Alert) (alerts : List Alert)
      → Raised t rule a
      → Evaluation t rules alerts
      → Evaluation t (rule ∷ rules) (a ∷ alerts)
  passes :
      (rule : AlertRule) (rules : List AlertRule) (alerts : List Alert)
      → ¬ Triggers t rule
      → Evaluation t rules alerts
      → Evaluation t (rule ∷ rules) alerts

module _ (sprintf : String → Float64 → String → Float64 → String) (draws : ℕ → AlertDraw)
    (t : Telemetry) where
  module _ (n : ℕ) (rule : AlertRule) (rules : List AlertRule) where
    evaluate_skipped :
        triggering_value t rule ≡ none
        → evaluate_rules sprintf draws n t (rule ∷ rules) ≡ evaluate_rules sprintf draws n t rules
    unfolding evaluate_rules
    evaluate_skipped e = ground arith

    evaluate_selected :
        (v : Float64)
        → triggering_value t rule ≡ some v
        → evaluate_rules sprintf draws n t (rule ∷ rules)
          ≡ alert_for sprintf t rule v (draws n) ∷ evaluate_rules sprintf draws (suc n) t rules
    unfolding evaluate_rules
    evaluate_selected v e = ground arith

  untriggered : (rule : AlertRule) → triggering_value t rule ≡ none → ¬ Triggers t rule
  untriggered rule e = λ (v, reading, breach).
      ground (arith, e, reading, breached_of_Breach v rule.operator rule.threshold breach)

  triggered-Raised :
      (rule : AlertRule) (v : Float64) (draw : AlertDraw)
      → triggering_value t rule ≡ some v
      → Raised t rule (alert_for sprintf t rule v draw)
  triggered-Raised rule v draw e = record {
    device = refl;
    metric = refl;
    reading = ground arith;
    threshold = refl;
    severity = refl;
    breach = Breach-of_breached v rule.operator rule.threshold (ground arith);
  }

  evaluate_rules-Evaluation :
      (n : ℕ) (rules : List AlertRule) → Evaluation t rules (evaluate_rules sprintf draws n t rules)
  unfolding evaluate_rules
  evaluate_rules-Evaluation n [] = done
  evaluate_rules-Evaluation n (rule ∷ rules) = elim (Option-cases (triggering_value t rule)) [
    | inl e ↦
        subst (Evaluation t (rule ∷ rules)) (sym (evaluate_skipped n rule rules e))
          (passes rule rules _ (untriggered rule e) (evaluate_rules-Evaluation n rules))
    | inr (v, e) ↦ subst (Evaluation t (rule ∷ rules)) (sym (evaluate_selected n rule rules v e)) (
        raises rule rules _ _ (triggered-Raised rule v (draws n) e)
          (evaluate_rules-Evaluation (suc n) rules))
  ]

  -- `Evaluate` raises one alert for each rule whose metric the sample has with a value that the
  -- rule's operator compares so with its threshold, in the order of the rules, and none for the
  -- others. Each names the sample's device, the rule's metric, threshold and severity and the value
  -- that was read.
  pub evaluate-Evaluation : (e : Engine) → Evaluation t e.rules (evaluate sprintf draws t e)
  unfolding evaluate
  evaluate-Evaluation e = evaluate_rules-Evaluation 0 e.rules
