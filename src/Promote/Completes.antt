-- ===== src/Promote/Completes.antt =====
-- A promotion in which nothing goes wrong: what the methods of the facility give.
use dotmac_observability.Prelude.{◌≡◌, refl, false, ◌&&◌, not, is_none, none, some, List, [], Dict}
use dotmac_observability.Result.{Result, ok}
use dotmac_observability.Platform.{Platform}
use dotmac_observability.Model.{DesiredState, Resolution}
use dotmac_observability.LiveVerify.Records.{LiveState, Verification}
use dotmac_observability.LiveVerify.Tree.{RenderedTree}
use dotmac_observability.LiveVerify.Verify.{verify}
use dotmac_observability.LiveVerify.Repaired.{Repaired, verify-Repaired_iff}
use dotmac_observability.Receipt
use dotmac_observability.Receipt.{CheckResult, build_receipt, assemble}
use dotmac_observability.Promote.Records.{
  states, FetchedBundle, StagedRelease, PromotionFacility, Request, PromotionOutcome, Progress,
}
use dotmac_observability.Promote.Stop.{receipt_inputs}
use dotmac_observability.Promote.Admission.{Admissible, preconditions-none_iff}
use dotmac_observability.Promote.Run.{
  production, disposable, request_for, failed_checks, rehearsal_findings, promote, after_fetch,
  after_check, after_rehearse, judge_rehearsal, after_stage, after_reload, after_observe,
  after_verify, after_accept, reach, current_release,
}

-- What a facility's methods give, one after the other, when every stage goes well.
pub record Smooth {W : Type 0} (py : Platform) (F : PromotionFacility W) (rq : Request)
    (tree : RenderedTree) (w : W) : Type 0 where
  pub w1 : W
  pub w2 : W
  pub w3 : W
  pub w4 : W
  pub w5 : W
  pub w6 : W
  pub w7 : W
  pub bundles : List FetchedBundle
  pub fetches : F.fetch rq.revision w ≡ (ok bundles, w1)
  pub checks : Dict CheckResult
  pub is_checked : F.check_configuration tree w1 ≡ (ok checks, w2)
  pub checks_pass : failed_checks checks ≡ []
  pub rehearsal : LiveState
  pub rehearses : F.rehearse tree (request_for rq tree "rehearsal") w2 ≡ (ok rehearsal, w3)
  pub judged : Verification
  pub judges : verify py rq.state rq.resolution tree rehearsal disposable ≡ ok judged
  pub rehearsal_holds : rehearsal_findings judged ≡ []
  pub stage : StagedRelease
  pub stages : F.stage tree rq.named_target w3 ≡ (ok stage, w4)
  pub has_target : is_none stage.previous && not rq.first_promotion ≡ false
  pub reloads : F.reload rq.named_target stage.current w4 ≡ (ok tt, w5)
  pub live : LiveState
  pub observes : F.observe rq.named_target (request_for rq tree stage.current) w5 ≡ (ok live, w6)
  pub repaired : Repaired py rq.state rq.resolution tree live (production rq)
  pub accepts : F.accept rq.named_target stage.current w6 ≡ (ok tt, w7)

module _ {W : Type 0} (py : Platform) (render : DesiredState → Resolution → Result RenderedTree)
    (F : PromotionFacility W) where
  -- If the request is admissible, the tree renders, every method of the facility returns in turn,
  -- no evaluator check failed, the rehearsal has no finding in conditions 1, 2, 4 and 5, staging
  -- captured a previous release or this is the first promotion, and the production read-back meets
  -- all six conditions, then promote returns an accepted outcome in the world that accept leaves.
  pub promote-Smooth :
      (rq : Request) (w : W) (tree : RenderedTree)
      → Admissible rq
      → render rq.state rq.resolution ≡ ok tree
      → (s : Smooth py F rq tree w)
      → (o : PromotionOutcome) × (promote py render F rq w ≡ (ok o, s.w7))
        × (o.outcome ≡ Receipt.accepted)
  unfolding promote reach current_release after_fetch after_check after_rehearse judge_rehearsal
      after_stage after_reload after_observe after_verify after_accept build_receipt assemble
      receipt_inputs
  promote-Smooth rq w tree a r s =
      let (v, measured, verdict_repaired) =
        (verify-Repaired_iff py rq.state rq.resolution tree s.live (production rq)).1 s.repaired in
      let progress : Progress = record {
        reached = states;
        stage = some s.stage;
        bundles = s.bundles;
        validation = s.checks;
        live = some s.live;
      } in
      (
        record {
          outcome = Receipt.accepted;
          states = states;
          findings = [];
          receipt =
              some (assemble py (receipt_inputs rq tree progress) Receipt.accepted (some s.live));
          verification = some v;
          staged = some s.stage;
          rolled_back_to = none;
        },
        rw
            (
              promote,
              (preconditions-none_iff rq).1 a,
              r,
              s.fetches,
              after_fetch,
              s.is_checked,
              after_check,
              s.checks_pass,
              s.rehearses,
              after_rehearse,
              s.judges,
              judge_rehearsal,
              s.rehearsal_holds,
              s.stages,
              after_stage,
              s.has_target,
              s.reloads,
              after_reload,
              s.observes,
              after_observe,
              measured,
              after_verify,
              verdict_repaired,
              s.accepts,
              after_accept,
              build_receipt,
            )
            refl,
        refl,
      )
