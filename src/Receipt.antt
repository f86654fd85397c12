-- ===== src/Receipt.antt =====
-- src/dotmac_observability/receipt.py: the promotion receipt, built from what was observed. The JSON
-- document is a record, with an `Option` for each block that a receipt may lack.
pub mod Checks
pub mod Believable
pub mod Authorized
use dotmac_observability.Prelude.{
  ℕ, ◌+◌, String, Bool, true, false, Option, none, some, List, [], ◌∷◌, map, length, keep, eqb,
  ◌==◌, if◌then◌else◌, Dict, sort_by,
}
use Prim.Native.String.{◌++◌ as ◌<>◌}
use dotmac_observability.Result.{Result, ok, raised, value_error}
use dotmac_observability.Platform.{Platform}
use dotmac_observability.Model.{DesiredState, PrivateInventory, TargetSet, ScrapeJob}
use dotmac_observability.LiveVerify.Records.{
  LiveState, LiveRelease, LiveRule, LiveTarget, LiveRollback, LiveCanary,
}
use dotmac_observability.LiveVerify.Tree.{RenderedTree, tree_digest}

-- OUTCOME_ACCEPTED, OUTCOME_ROLLED_BACK, OUTCOME_FAILED.
pub data Outcome : Type 0 where
  accepted rolled_back failed : Outcome

pub record Authorization : Type 0 where
  pub plan_digest : String
  pub approval_decision_ref : String
  pub approval_policy_code : Option String
  pub approval_policy_version : Option ℕ
  pub execution_plan_digest : Option String

pub record ImageRecord : Type 0 where
  pub service : String
  pub repository : String
  pub digest : String

pub record BundleRecord : Type 0 where
  pub product : String
  pub source_revision : String
  pub rules_sha256 : String
  pub rule_count : ℕ

pub record CheckResult : Type 0 where
  pub passed : Bool
  pub detail : Option String

pub record Runs : Type 0 where
  pub ci : Option String
  pub rehearsal : Option String
  pub promotion : Option String

-- The `live` block.
pub record LiveBlock : Type 0 where
  pub targets_expected : ℕ
  pub targets_up : ℕ
  pub rules_loaded : ℕ
  pub rules_healthy : ℕ
  pub rules_semantic_digest : String
  pub routes_verified : ℕ

-- The `canary` block.
pub record CanaryBlock : Type 0 where
  pub fired : Bool
  pub delivered : Bool
  pub recovered : Bool
  pub receiver : String

-- The `rollback` block.
pub record RollbackBlock : Type 0 where
  pub exercised : Bool
  pub restored_release : Option String
  pub succeeded : Bool

-- What a read-back adds to a receipt. `build_receipt` writes these blocks together or not at all; a
-- stored document may have a release without the others, which is left out here.
pub record Observed : Type 0 where
  pub release : LiveRelease
  pub live : LiveBlock
  pub canary : CanaryBlock
  pub rollback : Option RollbackBlock

pub record Receipt : Type 0 where
  pub outcome : Outcome
  pub environment : String
  pub control_plane_revision : String
  pub authorization : Authorization
  pub inventory_document : String
  pub inventory_version : ℕ
  pub inventory_sha256 : String
  pub rendered_digest : String
  pub images : List ImageRecord
  pub bundles : List BundleRecord
  pub prometheus_version : String
  pub alertmanager_version : String
  pub host : String
  pub validation : Dict CheckResult
  pub runs : Runs
  pub started_at : String
  pub finished_at : String
  pub observed : Option Observed

-- What the loop of `rules_semantic_digest` feeds to the hash.
digest_rules : List LiveRule → String
digest_rules [] = ""
digest_rules (r ∷ rs) = r.group <> "\0" <> r.name <> "\0" <> digest_rules rs

-- `rules_semantic_digest` of live_verify.py: a stable sort by name, then one by group.
unfoldable pub rules_semantic_digest : Platform → LiveState → String
unfolding digest_rules
rules_semantic_digest py live = py.sha256 (
    digest_rules
      (sort_by (λ (r : LiveRule). r.group) (sort_by (λ (r : LiveRule). r.name) live.rules)))

-- How many live targets are up.
unfoldable pub targets_up : List LiveTarget → ℕ
targets_up targets = length (keep (λ t. t.health == "up") targets)

sum_jobs : List ScrapeJob → ℕ
sum_jobs [] = 0
sum_jobs (job ∷ jobs) = elim job.expected [ none ↦ 0 | some n ↦ n ] + sum_jobs jobs

sum_sets : List TargetSet → ℕ
unfolding sum_jobs
sum_sets [] = 0
sum_sets (set ∷ sets) = sum_jobs set.jobs + sum_sets sets

unfoldable pub expected_total : DesiredState → LiveState → ℕ
unfolding sum_sets
expected_total state live =
    let total = sum_sets state.targets + length state.federations in
    if eqb total 0 then length live.targets else total

unfoldable pub canary_block : LiveState → Option String → CanaryBlock
canary_block live receiver = record {
  fired = live.canary.fired;
  delivered = live.canary.delivered;
  recovered = live.canary.recovered;
  receiver = elim receiver [ none ↦ live.canary.receiver | some r ↦ r ];
}

unfoldable pub rollback_block : LiveRollback → RollbackBlock
rollback_block r = record {
  exercised = r.exercised;
  restored_release = r.restored_release;
  succeeded = r.succeeded;
}

unfoldable pub observed_blocks : Platform → DesiredState → Option String → LiveState → Observed
observed_blocks py state receiver live = record {
  release = live.release;
  live = record {
    targets_expected = expected_total state live;
    targets_up = targets_up live.targets;
    rules_loaded = length live.rules;
    rules_healthy = length (keep (λ (r : LiveRule). r.health == "ok") live.rules);
    rules_semantic_digest = rules_semantic_digest py live;
    routes_verified = length live.routes;
  };
  canary = canary_block live receiver;
  rollback = elim live.rollback [ none ↦ none | some r ↦ some (rollback_block r) ];
}

-- `version or "unknown"`.
or_unknown : Option String → String
or_unknown none = "unknown"
or_unknown (some version) = if version == "" then "unknown" else version

-- The arguments of `build_receipt` that do not depend on the outcome.
pub record ReceiptParts : Type 0 where
  pub state : DesiredState
  pub control_plane_revision : String
  pub authorization : Authorization
  pub inventory : PrivateInventory
  pub tree : RenderedTree
  pub images : List ImageRecord
  pub bundles : List BundleRecord
  pub validation : Dict CheckResult
  pub runs : Runs
  pub started_at : String
  pub finished_at : String
  pub canary_receiver : Option String

unfoldable pub assemble : Platform → ReceiptParts → Outcome → Option LiveState → Receipt
unfolding or_unknown
assemble py p outcome live = record {
  outcome = outcome;
  environment = p.state.control_plane.environment;
  control_plane_revision = p.control_plane_revision;
  authorization = p.authorization;
  inventory_document = p.inventory.document;
  inventory_version = p.inventory.version;
  inventory_sha256 = p.inventory.digest;
  rendered_digest = tree_digest py p.tree;
  images = p.images;
  bundles = p.bundles;
  prometheus_version = or_unknown p.state.control_plane.prometheus.version;
  alertmanager_version = or_unknown p.state.control_plane.alertmanager.version;
  host = p.state.control_plane.host.target_id;
  validation = sort_by (λ kv. kv.0) p.validation;
  runs = p.runs;
  started_at = p.started_at;
  finished_at = p.finished_at;
  observed = elim live [
    | none ↦ none
    | some l ↦ some (observed_blocks py p.state p.canary_receiver l)
  ];
}

-- An accepted receipt without a read-back is refused.
unfoldable pub build_receipt : Platform → ReceiptParts → Outcome → Option LiveState → Result Receipt
build_receipt py p accepted none = raised value_error
build_receipt py p outcome live = ok (assemble py p outcome live)
