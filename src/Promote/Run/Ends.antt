-- ===== src/Promote/Run/Ends.antt =====
-- How a promotion that passed its preconditions ends: accepted after every stage, or stopped on a
-- prefix of them.
use dotmac_observability.Prelude.{
  ℕ, ◌≤◌, ◌<◌, ◌≡◌, refl, ap, String, Bool, true, false, ◌&&◌, not, Option, none, some, List, [],
  ◌∷◌, ◌++◌, ◌⊎◌, inl, inr, arith, length, take, is_none,
}
use dotmac_observability.Finding.{Finding}
use dotmac_observability.Result.{Exception, Result, ok, raised}
use dotmac_observability.Platform.{Platform}
use dotmac_observability.LiveVerify.Records.{LiveState, Verification, verdict, deployed_repaired}
use dotmac_observability.LiveVerify.Tree.{RenderedTree}
use dotmac_observability.LiveVerify.Verify.{verify}
use dotmac_observability.Receipt
use dotmac_observability.Receipt.{
  Receipt, CheckResult, Outcome, failed, rolled_back, ReceiptParts, assemble, observed_blocks,
  build_receipt,
}
use dotmac_observability.Promote.Records.{
  states, rollback_from, accepted, StagedRelease, PromotionFacility, Request, Progress,
  PromotionOutcome,
}
use dotmac_observability.Promote.Stop.{Settled, receipt_inputs, settle, conclude, stop}
use dotmac_observability.Promote.Stop.Settles.{Reported, Unrestored, Settles, settle-Settles}
use dotmac_observability.Promote.Run.{reach, failed_checks, caught, after_accept, production}

-- Every stage was reached, nothing is reported, and the verdict on the read-back is the repair.
pub record Acceptance (py : Platform) (rq : Request) (tree : RenderedTree) (o : PromotionOutcome)
    : Type 0 where
  pub progress : Progress
  pub live : LiveState
  pub verification : Verification
  pub stage : StagedRelease
  pub outcome : o.outcome ≡ Receipt.accepted
  pub every_state : o.states ≡ states
  pub silent : o.findings ≡ []
  pub nowhere : o.rolled_back_to ≡ none
  pub measured : verify py rq.state rq.resolution tree live (production rq) ≡ ok verification
  pub repaired : verdict verification ≡ deployed_repaired
  pub kept : o.verification ≡ some verification
  pub release : o.staged ≡ some stage
  pub has_target : is_none stage.previous && not rq.first_promotion ≡ false
  pub checked : failed_checks progress.validation ≡ []
  pub receipt :
      o.receipt ≡ some (assemble py (receipt_inputs rq tree progress) Receipt.accepted (some live))

-- The facility was asked for the previous release, and the receipt describes what it read back.
pub record RolledBack {W : Type 0} (py : Platform) (F : PromotionFacility W) (rq : Request)
    (o : PromotionOutcome) : Type 0 where
  pub stage : StagedRelease
  pub previous : String
  pub read : LiveState
  pub receipt : Receipt
  pub outcome : o.outcome ≡ rolled_back
  pub release : o.staged ≡ some stage
  pub captured : stage.previous ≡ some previous
  pub rolled_back_to : o.rolled_back_to ≡ some previous
  pub late : rollback_from < length o.states
  pub asked : (w : W) × ((F.rollback rq.named_target previous w).0 ≡ ok read)
  pub recorded : is_none read.rollback ≡ false
  pub filed : o.receipt ≡ some receipt
  pub described : receipt.observed ≡ some (observed_blocks py rq.state none read)

-- A prefix of the stages was reached, the reason is reported, and a receipt is filed.
pub record Stopped {W : Type 0} (py : Platform) (F : PromotionFacility W) (rq : Request)
    (o : PromotionOutcome) : Type 0 where
  pub count : ℕ
  pub short : count ≤ 6
  pub prefix : o.states ≡ take count states
  pub reported : Reported o.findings
  pub filed : is_none o.receipt ≡ false
  pub settled : ((o.outcome ≡ failed) × (o.rolled_back_to ≡ none)) ⊎ RolledBack py F rq o

pub data Ending {W : Type 0} (py : Platform) (F : PromotionFacility W) (rq : Request)
    (tree : RenderedTree) (o : PromotionOutcome) : Type 0 where
  accepted_by : Acceptance py rq tree o → Ending py F rq tree o
  stopped_by : Stopped py F rq o → Ending py F rq tree o

-- What is raised once the tree is rendered, judging the production read-back has raised.
abbrev pub Unjudged : Platform → Request → RenderedTree → Exception → Type 0
Unjudged py rq tree e =
    (live : LiveState) × (verify py rq.state rq.resolution tree live (production rq) ≡ raised e)

-- A promotion ends, or judging the production read-back has raised.
abbrev pub Good :
    {W : Type 0}
    → Platform
    → PromotionFacility W
    → Request
    → RenderedTree
    → Result PromotionOutcome
    → Type 0
Good py F rq tree (ok o) = Ending py F rq tree o
Good py F rq tree (raised e) = Unjudged py rq tree e

build_receipt_stopped :
    (py : Platform) (parts : ReceiptParts) (outcome : Outcome) (live : Option LiveState)
    → (outcome ≡ failed) ⊎ (outcome ≡ rolled_back)
    → build_receipt py parts outcome live ≡ ok (assemble py parts outcome live)
unfolding build_receipt
build_receipt_stopped py parts Receipt.accepted live h = absurd (ground arith)
build_receipt_stopped py parts failed live h = refl
build_receipt_stopped py parts rolled_back live h = refl

build_receipt_accepted :
    (py : Platform) (parts : ReceiptParts) (live : LiveState)
    → build_receipt py parts Receipt.accepted (some live)
      ≡ ok (assemble py parts Receipt.accepted (some live))
unfolding build_receipt
build_receipt_accepted py parts live = refl

module _ (py : Platform) (rq : Request) (tree : RenderedTree) (p : Progress) where
  observed_of_restored :
      (outcome : Outcome) (observed : Option LiveState) {read : LiveState}
      → outcome ≡ rolled_back
      → observed ≡ some read
      → (assemble py (receipt_inputs rq tree p) outcome observed).observed
        ≡ some (observed_blocks py rq.state none read)
  unfolding assemble receipt_inputs
  observed_of_restored outcome observed h e = rw e

module _ {W : Type 0} (py : Platform) (F : PromotionFacility W) (rq : Request)
    (tree : RenderedTree) where
  abbrev Fine : Result PromotionOutcome × W → Type 0
  Fine r = Good py F rq tree r.0

  conclude_failed :
      (n : ℕ) (p : Progress) (v : Option Verification) (s : Settled × W)
      → n ≤ 6
      → p.reached ≡ take n states
      → Reported s.0.extra
      → Unrestored s.0
      → Fine (conclude py F rq tree p v s)
  unfolding conclude
  conclude_failed n p v (s, w) short at reported u =
      rw (build_receipt_stopped py (receipt_inputs rq tree p) s.outcome s.observed (inl u.outcome))
        (stopped_by (record {
          count = n;
          short = short;
          prefix = at;
          reported = reported;
          filed = refl;
          settled = inl (u.outcome, u.nowhere);
        }))

  conclude-Fine :
      (n : ℕ) (with_facility : Bool) (p : Progress) (v : Option Verification) (w0 : W)
      (s : Settled × W)
      → n ≤ 6
      → p.reached ≡ take n states
      → Settles F rq with_facility p w0 s
      → Fine (conclude py F rq tree p v s)
  unfolding conclude
  conclude-Fine n with_facility p v w0 s short at (reported, inl (u, _, _)) =
      conclude_failed n p v s short at reported u
  conclude-Fine n with_facility p v w0 s short at (reported, inr (stage, e, late, inl u)) =
      conclude_failed n p v s short at reported u.unrestored
  conclude-Fine n with_facility p v w0 (s, w) short at (reported, inr (stage, e, late, inr r)) =
      rw (build_receipt_stopped py (receipt_inputs rq tree p) s.outcome s.observed (inr r.outcome))
        (stopped_by (record {
          count = n;
          short = short;
          prefix = at;
          reported = reported;
          filed = refl;
          settled = inr (record {
            stage = stage;
            previous = r.previous;
            read = r.read;
            receipt = assemble py (receipt_inputs rq tree p) s.outcome s.observed;
            outcome = r.outcome;
            release = e;
            captured = r.captured;
            rolled_back_to = r.rolled_back_to;
            late = late;
            asked = (w0, ap (λ x. x.0) r.asked);
            recorded = r.recorded;
            filed = refl;
            described = observed_of_restored py rq tree p s.outcome s.observed r.outcome r.observed;
          });
        }))

  pub stop-Fine :
      (n : ℕ) (with_facility : Bool) (p : Progress) (findings : List Finding)
      (v : Option Verification) (w : W)
      → n ≤ 6
      → p.reached ≡ take n states
      → Reported findings
      → Fine (stop py F rq tree with_facility p findings v w)
  unfolding stop
  stop-Fine n with_facility p findings v w short at reported =
      conclude-Fine n with_facility p v w (settle py F rq tree with_facility p findings w) short at
        (settle-Settles py F rq tree with_facility p findings w reported)

  pub caught-Fine :
      (n : ℕ) (p : Progress) (w : W)
      → n ≤ 6
      → p.reached ≡ take n states
      → Fine (caught py F rq tree p w)
  unfolding caught
  caught-Fine n p w short at = stop-Fine n true p _ none w short at refl

  pub after_accept-Fine :
      (p : Progress) (live : LiveState) (v : Verification) (stage : StagedRelease)
      (r : Result (Unit {0}) × W)
      → p.reached ≡ take 6 states
      → p.stage ≡ some stage
      → is_none stage.previous && not rq.first_promotion ≡ false
      → failed_checks p.validation ≡ []
      → verify py rq.state rq.resolution tree live (production rq) ≡ ok v
      → verdict v ≡ deployed_repaired
      → Fine (after_accept py F rq tree p live v r)
  unfolding after_accept
  after_accept-Fine p live v stage (raised e, w) at s t c m d =
      stop-Fine 6 true p _ (some v) w (omega arith) at refl
  after_accept-Fine p live v stage (ok _, w) at s t c m d =
      rw (build_receipt_accepted py (receipt_inputs rq tree p) live) (
        accepted_by (record {
          progress = p;
          live = live;
          verification = v;
          stage = stage;
          outcome = refl;
          every_state = (unfold reach in ap (λ r. r ++ (accepted ∷ [])) at);
          silent = refl;
          nowhere = refl;
          measured = m;
          repaired = d;
          kept = refl;
          release = s;
          has_target = t;
          checked = c;
          receipt = refl;
        }))
