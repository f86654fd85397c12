-- ===== src/LiveVerify/Repaired.antt =====
-- When `verify` cannot raise, and what the verdict says.
use dotmac_observability.Prelude.{
  ◌≡◌, refl, ap, ◌∙◌, sym, ◌↔◌, inl, inr, false, List, [], ◌++◌, arith, All, is_nil, eq_iff,
  append-eq-nil,
}
use dotmac_observability.Prelude.{Dict, ℕ, Bool-cases}
use mathlib.Core.Path.{subst}
use dotmac_observability.Finding.{Finding}
use dotmac_observability.Result.{ok, ok-injective, Result-cases}
use dotmac_observability.Platform.{Platform}
use dotmac_observability.Model.{DesiredState, Resolution}
use dotmac_observability.LiveVerify.Records.{LiveState, Verification, deployed_repaired, verdict}
use dotmac_observability.LiveVerify.Tree.{RenderedTree, tree_findings}
use dotmac_observability.LiveVerify.Tree.Matches.{TreeMatches, tree_findings-eq-nil}
use dotmac_observability.LiveVerify.Targets.{target_findings, declared_targets}
use dotmac_observability.LiveVerify.Targets.Healthy.{TargetsHealthy, compare_targets-eq-nil}
use dotmac_observability.LiveVerify.Targets.Rules.{
  rule_findings, RuleHealthy, loaded_rules, alert_names, rule_findings-eq-nil,
}
use dotmac_observability.LiveVerify.Integrity.{integrity_findings}
use dotmac_observability.LiveVerify.Integrity.Steady.{IntegrityHolds, integrity_findings-eq-nil}
use dotmac_observability.LiveVerify.Delivery.{delivery_findings}
use dotmac_observability.LiveVerify.Delivery.Delivered.{DeliveryProven, delivery_findings-eq-nil}
use dotmac_observability.LiveVerify.Probes.{probe_findings}
use dotmac_observability.LiveVerify.Probes.Proved.{ProbesProven, probe_findings-eq-nil}
use dotmac_observability.LiveVerify.Rollback.{rollback_findings}
use dotmac_observability.LiveVerify.Rollback.Restored.{RollbackProven, rollback_findings-eq-nil}
use dotmac_observability.LiveVerify.Verify.{Against, identity_findings, conditions_of, verify}

-- The targets were read, each job's count is known, and the targets are healthy against it.
pub record TargetsProven (state : DesiredState) (resolution : Resolution) (live : LiveState)
    : Type 0 where
  pub was_read : is_nil live.targets ≡ false
  pub declared : Dict ℕ
  pub known : declared_targets state resolution ≡ ok declared
  pub healthy : TargetsHealthy declared live.targets

-- The six conditions, in the words of the running host.
pub record Repaired (py : Platform) (state : DesiredState) (resolution : Resolution)
    (tree : RenderedTree) (live : LiveState) (against : Against) : Type 0 where
  pub environment : live.environment ≡ state.control_plane.environment
  pub host : live.host_target_id ≡ state.control_plane.host.target_id
  pub files : TreeMatches py tree live
  pub targets : TargetsProven state resolution live
  pub rules : All (RuleHealthy (loaded_rules live)) (alert_names state)
  pub integrity : IntegrityHolds py state live against.baseline
  pub delivery : DeliveryProven state live
  pub probes : ProbesProven state live
  pub rollback : RollbackProven live against.previous_digest against.first_promotion

identity_findings-eq-nil :
    (state : DesiredState) (live : LiveState)
    → (identity_findings state live ≡ []) ↔ (
        (live.environment ≡ state.control_plane.environment)
        × (live.host_target_id ≡ state.control_plane.host.target_id))
unfolding identity_findings
identity_findings-eq-nil state live = ground (
  arith,
  eq_iff live.environment state.control_plane.environment,
  eq_iff live.host_target_id state.control_plane.host.target_id,
)

target_findings-eq-nil :
    (state : DesiredState) (resolution : Resolution) (live : LiveState)
    → (target_findings state resolution live ≡ ok []) ↔ TargetsProven state resolution live
unfolding target_findings
target_findings-eq-nil state resolution live = elim (Bool-cases (is_nil live.targets)) [
  | inl empty ↦ rw empty (λ h. absurd (cc), λ h. absurd (cc h.was_read))
  | inr listed ↦ elim (Result-cases (declared_targets state resolution)) [
    | inr (e, p) ↦ rw (listed, p) (λ h. absurd (cc), λ h. absurd (cc (p, h.known)))
    | inl (d, p) ↦
        rw (listed, p)
          (
            λ h. record {
              was_read = listed;
              declared = d;
              known = p;
              healthy = (compare_targets-eq-nil d live.targets).0 (ok-injective h);
            },
            λ h. ap ok (
                (compare_targets-eq-nil d live.targets).1 (
                  subst (λ x. TargetsHealthy x live.targets) (ok-injective (sym h.known ∙ p))
                    h.healthy)),
          )
  ]
]

-- The verdict is the conjunction of the six.
conditions_repaired :
    (f1 f2 f3 f4 f5 f6 : List Finding)
    → (verdict (conditions_of f1 f2 f3 f4 f5 f6) ≡ deployed_repaired)
      ↔ ((f1 ≡ []) × (f2 ≡ []) × (f3 ≡ []) × (f4 ≡ []) × (f5 ≡ []) × (f6 ≡ []))
unfolding verdict conditions_of
conditions_repaired f1 f2 f3 f4 f5 f6 = (λ h. ground arith, λ h. ground arith)

module _ (py : Platform) (state : DesiredState) (resolution : Resolution) (tree : RenderedTree)
    (live : LiveState) (against : Against) where
  abbrev report : List Finding → List Finding → Verification
  report targets integrity =
      conditions_of (identity_findings state live ++ tree_findings py tree live)
        (targets ++ rule_findings state live) integrity (delivery_findings state live)
        (probe_findings state live)
        (rollback_findings live against.previous_digest against.first_promotion)

  -- What `verify` returns, it returns from the two parts that may raise.
  verify_parts :
      {v : Verification}
      → verify py state resolution tree live against ≡ ok v
      → (targets integrity : List Finding) × (target_findings state resolution live ≡ ok targets)
        × (integrity_findings py state live against.baseline ≡ ok integrity)
        × (v ≡ report targets integrity)
  unfolding verify
  verify_parts e = elim (Result-cases (target_findings state resolution live)) [
    | inr (x, p) ↦ absurd (cc (rw p at e))
    | inl (targets, p) ↦ elim (Result-cases (integrity_findings py state live against.baseline)) [
      | inr (x, q) ↦ absurd (cc (rw (p, q) at e))
      | inl (integrity, q) ↦ (targets, integrity, p, q, sym (ok-injective (rw (p, q) at e)))
    ]
  ]

  verify_of_parts :
      (targets integrity : List Finding)
      → target_findings state resolution live ≡ ok targets
      → integrity_findings py state live against.baseline ≡ ok integrity
      → verify py state resolution tree live against ≡ ok (report targets integrity)
  unfolding verify
  verify_of_parts targets integrity p q = rw (p, q)

  -- The verdict, read condition by condition.
  report_repaired :
      (targets integrity : List Finding)
      → (verdict (report targets integrity) ≡ deployed_repaired) ↔ (
          (identity_findings state live ++ tree_findings py tree live ≡ [])
          × (targets ++ rule_findings state live ≡ [])
          × (integrity ≡ [])
          × (delivery_findings state live ≡ [])
          × (probe_findings state live ≡ [])
          × (rollback_findings live against.previous_digest against.first_promotion ≡ []))
  report_repaired targets integrity =
      conditions_repaired (identity_findings state live ++ tree_findings py tree live)
        (targets ++ rule_findings state live) integrity (delivery_findings state live)
        (probe_findings state live)
        (rollback_findings live against.previous_digest against.first_promotion)

  Repaired-of_verdict :
      (targets integrity : List Finding)
      → target_findings state resolution live ≡ ok targets
      → integrity_findings py state live against.baseline ≡ ok integrity
      → verdict (report targets integrity) ≡ deployed_repaired
      → Repaired py state resolution tree live against
  Repaired-of_verdict targets integrity p q h =
      let c = (report_repaired targets integrity).0 h in
      let first = (append-eq-nil _ _).0 c.0 in
      let second = (append-eq-nil _ _).0 c.1 in
      let identity = (identity_findings-eq-nil state live).0 first.0 in
      record {
        environment = identity.0;
        host = identity.1;
        files = (tree_findings-eq-nil py tree live).0 first.1;
        targets = (target_findings-eq-nil state resolution live).0 (p ∙ ap ok second.0);
        rules = (rule_findings-eq-nil state live).0 second.1;
        integrity = (integrity_findings-eq-nil py state live against.baseline).0 (q ∙ ap ok c.2);
        delivery = (delivery_findings-eq-nil state live).0 c.3;
        probes = (probe_findings-eq-nil state live).0 c.4;
        rollback = (rollback_findings-eq-nil live _ _).0 c.5;
      }

  verdict_of_Repaired :
      Repaired py state resolution tree live against → verdict (report [] []) ≡ deployed_repaired
  verdict_of_Repaired h = (report_repaired [] []).1 (
    (append-eq-nil _ _).1 (
      (identity_findings-eq-nil state live).1 (h.environment, h.host),
      (tree_findings-eq-nil py tree live).1 h.files,
    ),
    (rule_findings-eq-nil state live).1 h.rules,
    refl,
    (delivery_findings-eq-nil state live).1 h.delivery,
    (probe_findings-eq-nil state live).1 h.probes,
    (rollback_findings-eq-nil live _ _).1 h.rollback,
  )

  -- verify returns a verification whose verdict is deployed_repaired exactly when the read-back is
  -- of the declared environment and host and meets all six conditions: the rendered files, healthy
  -- targets and rules, steady integrity counters, proven delivery, proven probes and a proven
  -- rollback.
  pub verify-Repaired_iff :
      ((v : Verification) × (verify py state resolution tree live against ≡ ok v)
        × (verdict v ≡ deployed_repaired))
      ↔ Repaired py state resolution tree live against
  verify-Repaired_iff = (
    λ h.
        let (targets, integrity, p, q, e) = verify_parts h.1 in
        Repaired-of_verdict targets integrity p q
          (subst (λ v. verdict v ≡ deployed_repaired) e h.2),
    λ h. (
      report [] [],
      verify_of_parts [] [] ((target_findings-eq-nil _ _ _).1 h.targets)
          ((integrity_findings-eq-nil _ _ _ _).1 h.integrity),
      verdict_of_Repaired h,
    ),
  )
