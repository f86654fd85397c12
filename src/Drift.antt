-- ===== src/Drift.antt =====
-- src/dotmac_observability/drift.py: the comparison of what the repository renders, what the host
-- runs, and what the last promotion recorded.
pub mod Clean
pub mod Promoted
use dotmac_observability.Prelude.{
  ℕ, String, Bool, not, ◌==◌, ◌!=◌, Option, none, some, List, [], ◌∷◌, ◌++◌, flat_map, length, when,
  eqb, is_nil, is_none, if◌then◌else◌, Dict, lookup, has_key,
}
use dotmac_observability.Finding.{Finding, Code}
use dotmac_observability.Platform.{Platform}
use dotmac_observability.LiveVerify.Records.{LiveState}
use dotmac_observability.LiveVerify.Tree.{RenderedTree, tree_digest, expected_files, observed_files}
use dotmac_observability.Receipt.{Receipt, rules_semantic_digest, targets_up}

pub record DriftReport : Type 0 where
  pub desired_vs_live : List Finding
  pub live_vs_receipt : List Finding
  pub receipt_vs_desired : List Finding
  pub incomparable : List Finding

unfoldable pub report_findings : DriftReport → List Finding
report_findings r = r.incomparable ++ r.desired_vs_live ++ r.live_vs_receipt ++ r.receipt_vs_desired

unfoldable pub clean : DriftReport → Bool
unfolding report_findings
clean r = is_nil (report_findings r)

-- One round of the loop over the artifacts.
unfoldable pub absent_artifact {ℓ} : {A : Type ℓ} → String → Option A → List Finding
absent_artifact name artifact =
    when (is_none artifact) (record { code = Code.drift_incomparable; location = name } ∷ [])

-- One round of the loop over the expected files.
unfoldable pub changed : Dict String → String × String → List Finding
changed observed (path, digest) = elim (lookup path observed) [
  | none ↦ record { code = Code.drift_desired_live; location = path } ∷ []
  | some found ↦
      if found == digest
      then []
      else record { code = Code.drift_desired_live; location = path } ∷ []
]

-- One round of the loop over the observed files.
unfoldable pub stale : Dict String → String × String → List Finding
stale expected (path, digest) =
    if has_key path expected
    then []
    else record { code = Code.drift_desired_live; location = path } ∷ []

unfoldable pub desired_and_live : Platform → RenderedTree → LiveState → List Finding
desired_and_live py tree live =
    if is_nil live.tree
    then record { code = Code.drift_live_tree_not_read; location = "live.tree" } ∷ []
    else flat_map (changed (observed_files live)) (expected_files py tree)
      ++ flat_map (stale (expected_files py tree)) (observed_files live)

unfoldable pub compare_desired : Platform → Option RenderedTree → Option LiveState → List Finding
compare_desired py none live = []
compare_desired py (some tree) none = []
compare_desired py (some tree) (some live) = desired_and_live py tree live

-- `str(_table(receipt, "release").get("current"))`: a receipt without the block gives "None".
recorded_release : Receipt → String
recorded_release r = elim r.observed [ none ↦ "None" | some o ↦ o.release.current ]

recorded_rules : Receipt → String
recorded_rules r = elim r.observed [ none ↦ "None" | some o ↦ o.live.rules_semantic_digest ]

-- Whether a recorded count is the one measured now: without the block it is -1.
same_targets : ℕ → Receipt → Bool
same_targets up r = elim r.observed [ none ↦ Bool.false | some o ↦ eqb up o.live.targets_up ]

same_routes : ℕ → Receipt → Bool
same_routes routes r = elim r.observed [
  | none ↦ Bool.false
  | some o ↦ eqb routes o.live.routes_verified
]

unfoldable pub live_and_receipt : Platform → LiveState → Receipt → List Finding
unfolding recorded_release recorded_rules same_targets same_routes
live_and_receipt py live r =
    when (live.release.current != recorded_release r)
      (record { code = Code.drift_live_receipt; location = "release.current" } ∷ [])
    ++ when (recorded_rules r != rules_semantic_digest py live)
        (record { code = Code.drift_live_receipt; location = "live.rules_semantic_digest" } ∷ [])
    ++ when (not (same_targets (targets_up live.targets) r))
        (record { code = Code.drift_live_receipt; location = "live.targets_up" } ∷ [])
    ++ when (not (same_routes (length live.routes) r))
        (record { code = Code.drift_live_receipt; location = "live.routes_verified" } ∷ [])

unfoldable pub compare_live : Platform → Option LiveState → Option Receipt → List Finding
compare_live py none receipt = []
compare_live py (some live) none = []
compare_live py (some live) (some receipt) = live_and_receipt py live receipt

unfoldable pub compare_receipt : Platform → Option RenderedTree → Option Receipt → List Finding
compare_receipt py none receipt = []
compare_receipt py (some tree) none = []
compare_receipt py (some tree) (some receipt) =
    if receipt.rendered_digest == tree_digest py tree
    then []
    else record { code = Code.drift_receipt_desired; location = "rendered_digest" } ∷ []

unfoldable pub compare :
    Platform → Option RenderedTree → Option LiveState → Option Receipt → DriftReport
unfolding absent_artifact
compare py tree live receipt = record {
  desired_vs_live = compare_desired py tree live;
  live_vs_receipt = compare_live py live receipt;
  receipt_vs_desired = compare_receipt py tree receipt;
  incomparable =
      absent_artifact "desired" tree
      ++ absent_artifact "live" live
      ++ absent_artifact "receipt" receipt;
}
