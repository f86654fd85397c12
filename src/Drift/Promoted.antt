-- ===== src/Drift/Promoted.antt =====
-- A host that was just promoted has not drifted.
use dotmac_observability.Prelude.{◌≡◌, refl, true, some, none}
use dotmac_observability.Result.{Result, ok}
use dotmac_observability.Platform.{Platform}
use dotmac_observability.Model.{DesiredState, Resolution}
use dotmac_observability.LiveVerify.Records.{LiveState}
use dotmac_observability.LiveVerify.Tree.{RenderedTree, tree_digest}
use dotmac_observability.LiveVerify.Repaired.{Repaired}
use dotmac_observability.Receipt
use dotmac_observability.Receipt.{ReceiptParts, Outcome, assemble, observed_blocks}
use dotmac_observability.Promote.Records.{PromotionFacility, Request, Progress, PromotionOutcome}
use dotmac_observability.Promote.Stop.{receipt_inputs}
use dotmac_observability.Promote.Run.{promote, production}
use dotmac_observability.Promote.Ending.{promote-accepted}
use dotmac_observability.Drift.{clean, compare}
use dotmac_observability.Drift.Clean.{RecordMatches, clean-NoDrift}

module _ (py : Platform) (rq : Request) (tree : RenderedTree) (p : Progress)
    (live : LiveState) where
  assembled-RecordMatches :
      RecordMatches py live (assemble py (receipt_inputs rq tree p) Receipt.accepted (some live))
  unfolding assemble observed_blocks
  assembled-RecordMatches = record {
    block = observed_blocks py rq.state none live;
    observed = (unfold receipt_inputs in refl);
    release = refl;
    rules = refl;
    targets = refl;
    routes = refl;
  }

  assembled_digest :
      (assemble py (receipt_inputs rq tree p) Receipt.accepted (some live)).rendered_digest
      ≡ tree_digest py tree
  unfolding assemble receipt_inputs
  assembled_digest = refl

module _ {W : Type 0} (py : Platform) (render : DesiredState → Resolution → Result RenderedTree)
    (F : PromotionFacility W) where
  -- If promote returns an accepted outcome, then there are a rendered tree and a read-back that
  -- meets all six conditions such that comparing that tree, that read-back and the receipt of the
  -- outcome gives a clean drift report.
  pub promote-clean :
      (rq : Request) (w : W) (o : PromotionOutcome)
      → (promote py render F rq w).0 ≡ ok o
      → o.outcome ≡ Receipt.accepted
      → (tree : RenderedTree) × (live : LiveState) × (render rq.state rq.resolution ≡ ok tree)
        × Repaired py rq.state rq.resolution tree live (production rq)
        × (clean (compare py (some tree) (some live) o.receipt) ≡ true)
  promote-clean rq w o h k =
      let (a, rest) = promote-accepted py render F rq w o h k in
      let (tree, r, c, repaired) = rest in
      (
        tree,
        c.live,
        r,
        repaired,
        (clean-NoDrift py (some tree) (some c.live) o.receipt).1 (record {
          desired = tree;
          running = c.live;
          recorded = assemble py (receipt_inputs rq tree c.progress) Receipt.accepted (some c.live);
          has_tree = refl;
          has_live = refl;
          has_receipt = c.receipt;
          files = repaired.files;
          record_matches = assembled-RecordMatches py rq tree c.progress c.live;
          rendered = assembled_digest py rq tree c.progress c.live;
        }),
      )
