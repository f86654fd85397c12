-- ===== src/Promote/Stop.antt =====
-- `_stop` of promote.py: the end of a promotion that failed, with a rollback where something was
-- staged, and the one place that assembles a receipt.
pub mod Settles
use dotmac_observability.Prelude.{
  String, Bool, true, false, ◌&&◌, not, Option, none, some, List, [], ◌∷◌, ◌++◌, map, length, ltb,
  is_none, if◌then◌else◌,
}
use dotmac_observability.Finding.{Finding, Code}
use dotmac_observability.Result.{Result, ok, raised, ◌>>=◌}
use dotmac_observability.Platform.{Platform}
use dotmac_observability.LiveVerify.Records.{LiveState, Verification}
use dotmac_observability.LiveVerify.Tree.{RenderedTree}
use dotmac_observability.Receipt.{
  BundleRecord, Receipt, Outcome, failed, rolled_back, ReceiptParts, build_receipt,
}
use dotmac_observability.Promote.Records.{
  State, rollback_from, FetchedBundle, StagedRelease, PromotionFacility, Request, Progress,
  PromotionOutcome,
}

unfoldable pub bundle_record : FetchedBundle → BundleRecord
bundle_record b = record {
  product = b.product;
  source_revision = b.source_revision;
  rules_sha256 = b.rules_sha256;
  rule_count = b.rule_count;
}

-- `_ReceiptInputs`: whatever is known so far.
unfoldable pub receipt_inputs : Request → RenderedTree → Progress → ReceiptParts
receipt_inputs rq tree p = record {
  state = rq.state;
  control_plane_revision = rq.revision.revision;
  authorization = rq.authorization;
  inventory = rq.inventory;
  tree = tree;
  images = rq.authorized_images;
  bundles = map bundle_record p.bundles;
  validation = p.validation;
  runs = rq.runs;
  started_at = rq.started_at;
  finished_at = rq.finished_at;
  canary_receiver = none;
}

-- What `_stop` knows when it comes to the receipt.
pub record Settled : Type 0 where
  pub outcome : Outcome
  pub rolled_back_to : Option String
  pub extra : List Finding
  pub observed : Option LiveState

unfoldable pub unsettled : Code → String → List Finding → Option LiveState → Settled
unsettled code target findings live = record {
  outcome = failed;
  rolled_back_to = none;
  extra = findings ++ (record { code = code; location = target } ∷ []);
  observed = live;
}

module _ {W : Type 0} (py : Platform) (F : PromotionFacility W) (rq : Request)
    (tree : RenderedTree) where
  -- What the facility's rollback gave: a read-back with a rollback record, or something less.
  unfoldable pub read_back :
      String → List Finding → Option LiveState → Result LiveState × W → Settled × W
  unfolding unsettled
  read_back previous findings live (raised e, w) =
      (unsettled Code.rollback_raised rq.named_target findings live, w)
  read_back previous findings live (ok restored, w) =
      if is_none restored.rollback
      then (unsettled Code.rollback_unobserved rq.named_target findings live, w)
      else (
        record {
          outcome = rolled_back;
          rolled_back_to = some previous;
          extra = findings;
          observed = some restored;
        },
        w,
      )

  -- From the pointer that staging captured.
  unfoldable pub restore : Option String → List Finding → Option LiveState → W → Settled × W
  unfolding read_back
  restore none findings live w =
      (unsettled Code.rollback_impossible rq.named_target findings live, w)
  restore (some previous) findings live w =
      read_back previous findings live (F.rollback rq.named_target previous w)

  unfoldable pub untouched : List Finding → Option LiveState → Settled
  untouched findings live = record {
    outcome = failed;
    rolled_back_to = none;
    extra = findings;
    observed = live;
  }

  -- The rollback decision. A stop that is not handed the facility restores nothing.
  unfoldable pub settle : Bool → Progress → List Finding → W → Settled × W
  unfolding restore untouched
  settle with_facility p findings w = elim p.stage [
    | none ↦ (untouched findings p.live, w)
    | some stage ↦
        if ltb rollback_from (length p.reached) && with_facility
        then restore stage.previous findings p.live w
        else (untouched findings p.live, w)
  ]

  unfoldable pub conclude :
      Progress → Option Verification → Settled × W → Result PromotionOutcome × W
  unfolding receipt_inputs
  conclude p verification (s, w) = (
    (do
      document ← build_receipt py (receipt_inputs rq tree p) s.outcome s.observed
      ok (record {
        outcome = s.outcome;
        states = p.reached;
        findings = s.extra;
        receipt = some document;
        verification = verification;
        staged = p.stage;
        rolled_back_to = s.rolled_back_to;
      })),
    w,
  )

  unfoldable pub stop :
      Bool → Progress → List Finding → Option Verification → W → Result PromotionOutcome × W
  unfolding settle conclude
  stop with_facility p findings verification w =
      conclude p verification (settle with_facility p findings w)
