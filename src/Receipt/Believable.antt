-- ===== src/Receipt/Believable.antt =====
-- What a receipt without findings asserts.
use dotmac_observability.Prelude.{
  ◌<◌, String, ◌≡◌, ◌↔◌, refl, sym, true, false, Option, none, some, List, [], arith, eqb_iff, inl,
  inr, Option-cases, is_none, flat_map, flat_map-eq-nil, append-eq-nil, All, All-iff, sort_by,
  All-sort_by,
}
use mathlib.Core.Path.{subst}
use mathlib.Core.Option.{some-injective}
use dotmac_observability.Result.{ok, ok-injective}
use dotmac_observability.LiveVerify.Records.{
  Verification, Verdict, verdict, deployed_repaired, rendered_guarded,
}
use dotmac_observability.Receipt.{Receipt, accepted, Observed, LiveBlock, CheckResult}
use dotmac_observability.Receipt.Checks.{
  failed_check, count_findings, verdict_findings, asserted_findings, accepted_findings,
}

-- Every evaluator check passed, every expected target was up, there are rules and all evaluate, the
-- canary arrived, a run promoted it, and the verdict, where one is given, is the repair.
pub record Asserted (r : Receipt) (v : Option Verification) : Type 0 where
  pub block : Observed
  pub observed : r.observed ≡ some block
  pub checks : All (λ (kv : String × CheckResult). kv.1.passed ≡ true) r.validation
  pub targets : block.live.targets_up ≡ block.live.targets_expected
  pub some_rules : 0 < block.live.rules_loaded
  pub rules : block.live.rules_healthy ≡ block.live.rules_loaded
  pub canary : block.canary.delivered ≡ true
  pub run : is_none r.runs.promotion ≡ false
  pub repaired : (w : Verification) → v ≡ some w → verdict w ≡ deployed_repaired

failed_check-eq-nil : (kv : String × CheckResult) → (failed_check kv ≡ []) ↔ (kv.1.passed ≡ true)
unfolding failed_check
failed_check-eq-nil (name, result) = ground arith

checks-eq-nil :
    (checks : List (String × CheckResult))
    → (flat_map failed_check (sort_by (λ kv. kv.0) checks) ≡ [])
      ↔ All (λ (kv : String × CheckResult). kv.1.passed ≡ true) checks
checks-eq-nil checks =
    let each = All-iff _ _ failed_check-eq-nil checks in
    let order =
      All-sort_by (λ (kv : String × CheckResult). kv.0) (λ kv. failed_check kv ≡ []) checks in
    (
      λ h. each.0 (order.0 ((flat_map-eq-nil _ _).0 h)),
      λ h. (flat_map-eq-nil _ _).1 (order.1 (each.1 h)),
    )

count_findings-eq-nil :
    (l : LiveBlock)
    → (count_findings l ≡ []) ↔ (
        (l.targets_up ≡ l.targets_expected)
        × (0 < l.rules_loaded)
        × (l.rules_healthy ≡ l.rules_loaded))
unfolding count_findings
count_findings-eq-nil l = ground (
  arith,
  eqb_iff l.targets_up l.targets_expected,
  eqb_iff l.rules_loaded 0,
  eqb_iff l.rules_healthy l.rules_loaded,
)

verdict_findings-eq-nil :
    (v : Option Verification)
    → (verdict_findings v ≡ []) ↔ ((w : Verification) → v ≡ some w → verdict w ≡ deployed_repaired)
unfolding verdict_findings
verdict_findings-eq-nil none = (λ h w e. absurd (cc), λ h. refl)
verdict_findings-eq-nil (some w) = judge (verdict w) refl
  where
    judge :
        (d : Verdict)
        → verdict w ≡ d
        → (verdict_findings (some w) ≡ [])
          ↔ ((x : Verification) → some w ≡ some x → verdict x ≡ deployed_repaired)
    judge rendered_guarded e =
        rw (e, verdict_findings) (λ h. absurd (cc), λ h. absurd (cc (h w refl, e)))
    judge deployed_repaired e = (
      λ h x p. subst (λ y. verdict y ≡ deployed_repaired) (some-injective w x p) e,
      λ h. rw (e, verdict_findings) refl,
    )

asserted_findings-eq-nil :
    (r : Receipt) (v : Option Verification)
    → (asserted_findings r v r.observed ≡ ok []) ↔ Asserted r v
unfolding asserted_findings
asserted_findings-eq-nil r v = elim (Option-cases r.observed) [
  | inl bare ↦ rw bare (λ h. absurd (cc), λ h. absurd (cc h.observed))
  | inr (o, e) ↦ rw e (
    λ h.
        let (abcd, verdict_nil) = (append-eq-nil _ _).0 (ok-injective h) in
        let (abc, run_nil) = (append-eq-nil _ _).0 abcd in
        let (ab, canary_nil) = (append-eq-nil _ _).0 abc in
        let (checks_nil, count_nil) = (append-eq-nil _ _).0 ab in
        let (targets, some_rules, rules) = (count_findings-eq-nil o.live).0 count_nil in
        record {
          block = o;
          observed = refl;
          checks = (checks-eq-nil r.validation).0 checks_nil;
          targets = targets;
          some_rules = some_rules;
          rules = rules;
          canary = ground arith;
          run = ground arith;
          repaired = (verdict_findings-eq-nil v).0 verdict_nil;
        },
    λ h.
        let same = sym (some-injective o h.block h.observed) in
        let counts = (count_findings-eq-nil h.block.live).1 (h.targets, h.some_rules, h.rules) in
        rw
          (
            (checks-eq-nil r.validation).1 h.checks,
            subst (λ (b : Observed). count_findings b.live ≡ []) same counts,
            subst (λ (b : Observed). b.canary.delivered ≡ true) same h.canary,
            h.run,
            (verdict_findings-eq-nil v).1 h.repaired,
          )
          refl,
  )
]

-- An accepted receipt asserts what it must exactly when this finds nothing.
pub accepted_findings-eq-nil :
    (r : Receipt) (v : Option Verification)
    → r.outcome ≡ accepted
    → (accepted_findings r v ≡ ok []) ↔ Asserted r v
unfolding accepted_findings
accepted_findings-eq-nil r v a = simp (a, accepted_findings) (asserted_findings-eq-nil r v)
