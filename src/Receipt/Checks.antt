-- ===== src/Receipt/Checks.antt =====
-- `receipt_findings` of receipt.py: every reason that a receipt should not be believed. The schema
-- layer and the private-material detector are arguments: what they find comes first.
use dotmac_observability.Prelude.{
  String, Bool, true, false, not, ◌&&◌, ◌||◌, ◌==◌, ◌!=◌, Option, none, some, List, [], ◌∷◌, ◌++◌,
  flat_map, when, is_nil, is_none, eqb, if◌then◌else◌, sort_by,
}
use Prim.Native.String.{◌++◌ as ◌<>◌}
use dotmac_observability.Finding.{Finding, Code}
use dotmac_observability.Result.{Result, ok, raised, value_error, ◌>>=◌}
use dotmac_observability.Platform.{Platform}
use dotmac_observability.LiveVerify.Records.{
  Verification, rendered_guarded, deployed_repaired, verdict,
}
use dotmac_observability.LiveVerify.Tree.{RenderedTree, tree_digest}
use dotmac_observability.Receipt.{
  Receipt, accepted, rolled_back, failed, Observed, LiveBlock, ImageRecord, CheckResult,
}

unfoldable pub release_findings : Receipt → Bool → List Finding
release_findings r first_promotion = elim r.observed [
  | none ↦ []
  | some o ↦
      when (is_none o.release.previous && not first_promotion)
        (record { code = Code.receipt_no_rollback_target; location = "release.previous" } ∷ [])
]

unfoldable pub plan_findings : String → Option String → List Finding
plan_findings recorded none = []
plan_findings recorded (some plan) =
    when (recorded != plan)
      (record { code = Code.receipt_plan_digest; location = "authorization.plan_digest" } ∷ [])

unfoldable pub execution_findings : Option String → Option String → List Finding
execution_findings recorded none = []
execution_findings none (some plan) =
    record {
      code = Code.receipt_execution_plan_absent;
      location = "authorization.execution_plan_digest";
    }
    ∷ []
execution_findings (some digest) (some plan) = when (digest != plan) (
    record {
      code = Code.receipt_execution_plan_digest;
      location = "authorization.execution_plan_digest";
    }
    ∷ [])

same_image : ImageRecord → ImageRecord → Bool
same_image a b = a.service == b.service && a.repository == b.repository && a.digest == b.digest

unfoldable pub has_image : ImageRecord → List ImageRecord → Bool
unfolding same_image
has_image a [] = false
has_image a (b ∷ bs) = same_image b a || has_image a bs

unfoldable pub all_in : List ImageRecord → List ImageRecord → Bool
unfolding has_image
all_in [] bs = true
all_in (a ∷ as_) bs = has_image a bs && all_in as_ bs

-- The two sets of images.
unfoldable pub image_findings : Receipt → Option (List ImageRecord) → List Finding
unfolding all_in
image_findings r none = []
image_findings r (some approved) =
    if all_in r.images approved && all_in approved r.images
    then []
    else record { code = Code.receipt_image_set; location = "images" } ∷ []

unfoldable pub digest_findings : Platform → Receipt → Option RenderedTree → List Finding
digest_findings py r none = []
digest_findings py r (some tree) =
    if r.rendered_digest == tree_digest py tree
    then []
    else record { code = Code.receipt_rendered_digest; location = "rendered_digest" } ∷ []

unfoldable pub failed_check : String × CheckResult → List Finding
failed_check (name, result) = when (not result.passed) (
    record { code = Code.receipt_accepted_with_failed_check; location = "validation." <> name }
    ∷ [])

unfoldable pub count_findings : LiveBlock → List Finding
count_findings live =
    when (not (eqb live.targets_up live.targets_expected))
      (record { code = Code.receipt_accepted_targets; location = "live.targets_up" } ∷ [])
    ++ (if eqb live.rules_loaded 0
        then record { code = Code.receipt_accepted_no_rules; location = "live.rules_loaded" } ∷ []
        else when (not (eqb live.rules_healthy live.rules_loaded)) (
            record { code = Code.receipt_accepted_unhealthy_rules; location = "live.rules_healthy" }
            ∷ []))

unfoldable pub verdict_findings : Option Verification → List Finding
verdict_findings none = []
verdict_findings (some v) = elim (verdict v) [
  | deployed_repaired ↦ []
  | rendered_guarded ↦
      record { code = Code.receipt_accepted_without_verdict; location = "outcome" } ∷ []
]

-- What an accepted receipt asserts. One without its blocks ends in `int("None")`.
unfoldable pub asserted_findings :
    Receipt → Option Verification → Option Observed → Result (List Finding)
asserted_findings r verification none = raised value_error
asserted_findings r verification (some o) = ok (
    flat_map failed_check (sort_by (λ kv. kv.0) r.validation)
    ++ count_findings o.live
    ++ when (not o.canary.delivered)
        (record { code = Code.receipt_accepted_canary; location = "canary.delivered" } ∷ [])
    ++ when (is_none r.runs.promotion)
        (record { code = Code.receipt_accepted_unproven_run; location = "runs.promotion" } ∷ [])
    ++ verdict_findings verification)

unfoldable pub accepted_findings : Receipt → Option Verification → Result (List Finding)
accepted_findings r verification = elim r.outcome [
  | accepted ↦ asserted_findings r verification r.observed
  | rolled_back ↦ ok []
  | failed ↦ ok []
]

-- What the receipt is held against.
pub record Expected : Type 0 where
  pub first_promotion : Bool
  pub verification : Option Verification
  pub authorized_images : Option (List ImageRecord)
  pub authorized_plan_digest : Option String
  pub authorized_execution_plan_digest : Option String
  pub tree : Option RenderedTree

unfoldable pub receipt_findings :
    Platform
    → (schema private : Receipt → List Finding) → Receipt
    → Expected
    → Result (List Finding)
receipt_findings py schema private r e = if not (is_nil (schema r)) then ok (schema r) else do
  asserted ← accepted_findings r e.verification
  ok (
      private r
      ++ release_findings r e.first_promotion
      ++ plan_findings r.authorization.plan_digest e.authorized_plan_digest
      ++ execution_findings r.authorization.execution_plan_digest e.authorized_execution_plan_digest
      ++ image_findings r e.authorized_images
      ++ digest_findings py r e.tree
      ++ asserted)
