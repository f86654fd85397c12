-- ===== src/Samples/Conditions.antt =====
-- The six conditions, the drift report and the receipt, at a host that meets them.
use dotmac_observability.Prelude.{true, false, none, some, List, [], ◌∷◌, ◌≡◌, ◌↔◌, refl, All}
use dotmac_observability.Result.{ok}
use dotmac_observability.LiveVerify.Tree.{tree_findings}
use dotmac_observability.LiveVerify.Tree.Matches.{TreeMatches, tree_findings-eq-nil}
use dotmac_observability.LiveVerify.Targets.{compare_targets}
use dotmac_observability.LiveVerify.Targets.Healthy.{TargetsHealthy, compare_targets-eq-nil}
use dotmac_observability.LiveVerify.Targets.Rules.{
  rule_findings, RuleHealthy, loaded_rules, alert_names, rule_findings-eq-nil,
}
use dotmac_observability.LiveVerify.Integrity.{integrity_findings}
use dotmac_observability.LiveVerify.Integrity.Steady.{IntegrityHolds, integrity_findings-eq-nil}
use dotmac_observability.LiveVerify.Delivery.{delivery_findings}
use dotmac_observability.LiveVerify.Delivery.Delivered.{DeliveryProven, delivery_findings-eq-nil}
use dotmac_observability.LiveVerify.Probes.{probe_findings}
use dotmac_observability.LiveVerify.Probes.Proved.{ProbesProven, probe_findings-eq-nil}
use dotmac_observability.LiveVerify.Rollback.{rollback_findings}
use dotmac_observability.LiveVerify.Rollback.Restored.{RollbackProven, rollback_findings-eq-nil}
use dotmac_observability.Promote.Records.{Progress}
use dotmac_observability.Promote.Stop.{settle}
use dotmac_observability.Promote.Stop.Settles.{Settles, settle-Settles}
use dotmac_observability.Promote.Records.{fetched, validated, rehearsed, staged}
use dotmac_observability.Finding.{Finding, promotion_stage_raised}
use dotmac_observability.Drift.{clean, compare}
use dotmac_observability.Drift.Clean.{NoDrift, clean-NoDrift}
use dotmac_observability.Receipt.{Receipt, accepted, assemble}
use dotmac_observability.Receipt.Checks.{Expected, receipt_findings}
use dotmac_observability.Receipt.Authorized.{Believable, receipt_findings-Believable}
use dotmac_observability.Promote.Stop.{receipt_inputs}
use dotmac_observability.Ingestion.{matched, compare_rebuild}
use dotmac_observability.Ingestion.Rebuilt.{Rebuilt, compare_rebuild-Rebuilt}
use dotmac_observability.Prelude.{Dict, Option, String, lookup}
use dotmac_observability.Samples.Desired.{desired}
use dotmac_observability.Samples.Running.{platform, tree, live, live_at, target, request, works}

tree_findings-eq-nil_example :
    (tree_findings platform tree live ≡ []) ↔ TreeMatches platform tree live
tree_findings-eq-nil_example = tree_findings-eq-nil platform tree live

compare_targets-eq-nil_example :
    (compare_targets (("api", 2) ∷ []) (target ∷ target ∷ []) ≡ [])
    ↔ TargetsHealthy (("api", 2) ∷ []) (target ∷ target ∷ [])
compare_targets-eq-nil_example = compare_targets-eq-nil (("api", 2) ∷ []) (target ∷ target ∷ [])

rule_findings-eq-nil_example :
    (rule_findings desired live ≡ []) ↔ All (RuleHealthy (loaded_rules live)) (alert_names desired)
rule_findings-eq-nil_example = rule_findings-eq-nil desired live

integrity_findings-eq-nil_example :
    (integrity_findings platform desired live (some (live_at "2026-01-01T00:00:00Z")) ≡ ok [])
    ↔ IntegrityHolds platform desired live (some (live_at "2026-01-01T00:00:00Z"))
integrity_findings-eq-nil_example =
    integrity_findings-eq-nil platform desired live (some (live_at "2026-01-01T00:00:00Z"))

delivery_findings-eq-nil_example :
    (delivery_findings desired live ≡ []) ↔ DeliveryProven desired live
delivery_findings-eq-nil_example = delivery_findings-eq-nil desired live

probe_findings-eq-nil_example : (probe_findings desired live ≡ []) ↔ ProbesProven desired live
probe_findings-eq-nil_example = probe_findings-eq-nil desired live

rollback_findings-eq-nil_example :
    (rollback_findings live (some "digest-1") false ≡ [])
    ↔ RollbackProven live (some "digest-1") false
rollback_findings-eq-nil_example = rollback_findings-eq-nil live (some "digest-1") false

-- Stopped after staging.
abbrev staged_progress : Progress
staged_progress = record {
  reached = fetched ∷ validated ∷ rehearsed ∷ staged ∷ [];
  stage = some (record { current = "release-2"; previous = some "release-1" });
  bundles = [];
  validation = [];
  live = none;
}

abbrev reasons : List Finding
reasons = record { code = promotion_stage_raised; location = "RELOADED" } ∷ []

settle-Settles_example :
    Settles works request true staged_progress 0
      (settle platform works request tree true staged_progress reasons 0)
settle-Settles_example =
    settle-Settles platform works request tree true staged_progress reasons 0 refl

clean-NoDrift_example :
    (clean (compare platform (some tree) (some live) none) ≡ true)
    ↔ NoDrift platform (some tree) (some live) none
clean-NoDrift_example = clean-NoDrift platform (some tree) (some live) none

-- Nothing is held against the receipt but its own assertions and the tree.
abbrev expected : Expected
expected = record {
  first_promotion = false;
  verification = none;
  authorized_images = some [];
  authorized_plan_digest = some "plan";
  authorized_execution_plan_digest = none;
  tree = some tree;
}

abbrev receipt : Receipt
receipt = assemble platform (receipt_inputs request tree staged_progress) accepted (some live)

abbrev silent : Receipt → List Finding
silent r = []

receipt_findings-Believable_example :
    (receipt_findings platform silent silent receipt expected ≡ ok [])
    ↔ ((silent receipt ≡ []) × (silent receipt ≡ []) × Believable platform receipt expected)
receipt_findings-Believable_example =
    receipt_findings-Believable platform silent silent receipt expected

abbrev rows : Option (Dict String)
rows = some (("event-1", "digest-1") ∷ [])

compare_rebuild-Rebuilt_example :
    ((compare_rebuild rows rows).verdict ≡ matched) ↔ Rebuilt rows rows
unfolding lookup
compare_rebuild-Rebuilt_example = compare_rebuild-Rebuilt rows rows (refl, tt) (refl, tt)
