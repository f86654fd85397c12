-- ===== src/LiveVerify/Targets/Rules.antt =====
-- `_rule_findings` of live_verify.py: the rules that the gates declare exist and evaluate.
use dotmac_observability.Prelude.{
  String, ◌≡◌, refl, ◌↔◌, inl, inr, arith, eq_iff, Option-cases, All, All-iff, All-sorted,
  All-distinct, flat_map-eq-nil, ◌==◌, none, some, List, [], ◌∷◌, map, flat_map, is_nil,
  if◌then◌else◌, Dict, lookup, from_pairs, sorted, distinct,
}
use mathlib.Core.Option.{some-injective}
use dotmac_observability.Finding.{Finding, Code}
use dotmac_observability.Model.{DesiredState, VerificationGate}
use dotmac_observability.LiveVerify.Records.{LiveState, LiveRule}
use dotmac_observability.LiveVerify.Derive.{meta_alert_name}

unfoldable pub alert_names : DesiredState → List String
alert_names state = map (λ (g : VerificationGate). meta_alert_name g.name) state.bundle.gates

-- `{rule.name: rule for rule in live.rules}`
unfoldable pub loaded_rules : LiveState → Dict LiveRule
loaded_rules live = from_pairs (map (λ (r : LiveRule). (r.name, r)) live.rules)

unfoldable pub one_rule : Dict LiveRule → String → List Finding
one_rule loaded name = elim (lookup name loaded) [
  | none ↦ record { code = Code.rule_absent; location = name } ∷ []
  | some rule ↦
      if rule.health == "ok"
      then []
      else record { code = Code.rule_unhealthy; location = name } ∷ []
]

unfoldable pub compare_rules : List String → Dict LiveRule → List Finding
compare_rules declared loaded =
    if is_nil declared
    then []
    else if is_nil loaded
    then record { code = Code.rules_not_read; location = "live.rules" } ∷ []
    else flat_map (one_rule loaded) (sorted declared)

unfoldable pub rule_findings : DesiredState → LiveState → List Finding
rule_findings state live = compare_rules (distinct [] (alert_names state)) (loaded_rules live)

-- The rule is loaded, and evaluates cleanly.
abbrev pub RuleHealthy : Dict LiveRule → String → Type 0
RuleHealthy loaded name = (r : LiveRule) × (lookup name loaded ≡ some r) × (r.health ≡ "ok")

one_rule-eq-nil :
    (loaded : Dict LiveRule) (name : String) → (one_rule loaded name ≡ []) ↔ RuleHealthy loaded name
unfolding one_rule
one_rule-eq-nil loaded name = elim (Option-cases (lookup name loaded)) [
  | inl absent ↦ rw (absent, one_rule) (λ h. absurd (cc), λ h. absurd (cc h.1))
  | inr (r, e) ↦
      rw (e, one_rule)
        (
          λ h. (r, refl, ground (arith, eq_iff r.health "ok")),
          λ h. ground (arith, some-injective r h.0 h.1, eq_iff r.health "ok", h.2),
        )
]

-- The findings on the rules, from the names that are declared and the rules that are loaded.
compare_rules-eq-nil :
    (loaded : Dict LiveRule) (declared : List String)
    → (compare_rules declared loaded ≡ []) ↔ All (RuleHealthy loaded) declared
unfolding compare_rules lookup
compare_rules-eq-nil loaded [] = (λ h. tt, λ h. refl)
compare_rules-eq-nil [] (name ∷ names) = (λ h. absurd (cc), λ h. absurd (cc h.0.1))
compare_rules-eq-nil (r ∷ loaded) (name ∷ names) =
    let each = All-iff _ _ (one_rule-eq-nil (r ∷ loaded)) (name ∷ names) in
    let order = All-sorted (λ n. one_rule (r ∷ loaded) n ≡ []) (name ∷ names) in
    (
      λ h. each.0 (order.0 ((flat_map-eq-nil _ _).0 h)),
      λ h. (flat_map-eq-nil _ _).1 (order.1 (each.1 h)),
    )

-- Nothing is found on the rules exactly when, for each gate, the rule that its alert name looks up
-- among the loaded ones is there and evaluates ok.
pub rule_findings-eq-nil :
    (state : DesiredState) (live : LiveState)
    → (rule_findings state live ≡ []) ↔ All (RuleHealthy (loaded_rules live)) (alert_names state)
unfolding rule_findings
rule_findings-eq-nil state live =
    let compared = compare_rules-eq-nil (loaded_rules live) (distinct [] (alert_names state)) in
    let names = All-distinct (RuleHealthy (loaded_rules live)) (alert_names state) in
    (λ h. names.0 (compared.0 h), λ h. compared.1 (names.1 h))
