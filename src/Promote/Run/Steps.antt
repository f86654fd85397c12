-- ===== src/Promote/Run/Steps.antt =====
-- The stages of `promote`, the last first: each goes on or stops, and either way ends well.
use dotmac_observability.Prelude.{
  ◌≡◌, refl, ap, true, false, ◌&&◌, not, none, some, List, [], ◌∷◌, ◌++◌, inl, inr, arith, take,
  is_nil, is_nil-eq-true, is_none, Bool-cases, Dict,
}
use dotmac_observability.Result.{Result, ok, raised}
use dotmac_observability.Platform.{Platform}
use dotmac_observability.LiveVerify.Records.{
  LiveState, Verification, Verdict, verdict, findings_of, deployed_repaired, rendered_guarded,
  findings_of-guarded,
}
use dotmac_observability.LiveVerify.Tree.{RenderedTree}
use dotmac_observability.LiveVerify.Verify.{verify}
use dotmac_observability.Receipt.{CheckResult}
use dotmac_observability.Promote.Records.{
  states, validated, rehearsed, staged, reloaded, verified, FetchedBundle, StagedRelease,
  PromotionFacility, Request, Progress, PromotionOutcome,
}
use dotmac_observability.Promote.Run.{
  start, reach, failed_checks, rehearsal_findings, production, after_verify, after_observe,
  after_reload, after_stage, judge_rehearsal, after_rehearse, after_check, after_fetch,
}
use dotmac_observability.Promote.Run.Ends.{Good, stop-Fine, caught-Fine, after_accept-Fine}

module _ {W : Type 0} (py : Platform) (F : PromotionFacility W) (rq : Request)
    (tree : RenderedTree) where
  abbrev Fine : Result PromotionOutcome × W → Type 0
  Fine r = Good py F rq tree r.0

  -- What a promotion knows once its stage was accepted.
  abbrev Prepared : Progress → StagedRelease → Type 0
  Prepared p stage =
      (p.stage ≡ some stage)
      × (is_none stage.previous && not rq.first_promotion ≡ false)
      × (failed_checks p.validation ≡ [])

  after_verify-Fine :
      (p : Progress) (live : LiveState) (stage : StagedRelease) (r : Result Verification) (w : W)
      → p.reached ≡ take 6 states
      → Prepared p stage
      → verify py rq.state rq.resolution tree live (production rq) ≡ r
      → Fine (after_verify py F rq tree p live r w)
  unfolding after_verify
  after_verify-Fine p live stage (raised e) w at k m = (live, m)
  after_verify-Fine p live stage (ok v) w at k m = judge (verdict v) refl
    where
      judge : (d : Verdict) → verdict v ≡ d → Fine (after_verify py F rq tree p live (ok v) w)
      judge rendered_guarded d =
          rw (d, after_verify)
            (stop-Fine py F rq tree 6 true p (findings_of v) (some v) w (ground arith) at
              (findings_of-guarded v d))
      judge deployed_repaired d =
          rw (d, after_verify) (after_accept-Fine py F rq tree p live v stage _ at k.0 k.1 k.2 m d)

  after_observe-Fine :
      (p : Progress) (stage : StagedRelease) (r : Result LiveState × W)
      → p.reached ≡ take 5 states
      → Prepared p stage
      → Fine (after_observe py F rq tree p r)
  unfolding after_observe reach
  after_observe-Fine p stage (raised e, w) at k = caught-Fine py F rq tree 5 p w (ground arith) at
  after_observe-Fine p stage (ok live, w) at k =
      after_verify-Fine _ live stage _ w (ap (λ r. r ++ (verified ∷ [])) at) k refl

  after_reload-Fine :
      (p : Progress) (stage : StagedRelease) (r : Result (Unit {0}) × W)
      → p.reached ≡ take 4 states
      → Prepared p stage
      → Fine (after_reload py F rq tree p stage r)
  unfolding after_reload reach
  after_reload-Fine p stage (raised e, w) at k = caught-Fine py F rq tree 4 p w (ground arith) at
  after_reload-Fine p stage (ok _, w) at k =
      after_observe-Fine _ stage _ (ap (λ r. r ++ (reloaded ∷ [])) at) k

  after_stage-Fine :
      (p : Progress) (r : Result StagedRelease × W)
      → p.reached ≡ take 3 states
      → failed_checks p.validation ≡ []
      → Fine (after_stage py F rq tree p r)
  unfolding after_stage reach
  after_stage-Fine p (raised e, w) at c = caught-Fine py F rq tree 3 p w (ground arith) at
  after_stage-Fine p (ok s, w) at c =
      elim (Bool-cases (is_none s.previous && not rq.first_promotion)) [
        | inl bare ↦ rw bare (
            stop-Fine py F rq tree 4 true _ _ none w (ground arith)
              (ap (λ r. r ++ (staged ∷ [])) at) refl)
        | inr held ↦
            rw held (after_reload-Fine _ s _ (ap (λ r. r ++ (staged ∷ [])) at) (refl, held, c))
      ]

  judge_rehearsal-Fine :
      (p : Progress) (r : Result Verification) (w : W)
      → p.reached ≡ take 3 states
      → failed_checks p.validation ≡ []
      → Fine (judge_rehearsal py F rq tree p r w)
  unfolding judge_rehearsal
  judge_rehearsal-Fine p (raised e) w at c = caught-Fine py F rq tree 3 p w (ground arith) at
  judge_rehearsal-Fine p (ok v) w at c = elim (Bool-cases (is_nil (rehearsal_findings v))) [
    | inl quiet ↦ rw quiet (after_stage-Fine p _ at c)
    | inr noisy ↦
        rw noisy
          (stop-Fine py F rq tree 3 false p (rehearsal_findings v) none w (ground arith) at noisy)
  ]

  after_rehearse-Fine :
      (p : Progress) (r : Result LiveState × W)
      → p.reached ≡ take 2 states
      → failed_checks p.validation ≡ []
      → Fine (after_rehearse py F rq tree p r)
  unfolding after_rehearse reach
  after_rehearse-Fine p (raised e, w) at c = caught-Fine py F rq tree 2 p w (ground arith) at
  after_rehearse-Fine p (ok live, w) at c =
      judge_rehearsal-Fine _ _ w (ap (λ r. r ++ (rehearsed ∷ [])) at) c

  after_check-Fine :
      (p : Progress) (r : Result (Dict CheckResult) × W)
      → p.reached ≡ take 1 states
      → Fine (after_check py F rq tree p r)
  unfolding after_check reach
  after_check-Fine p (raised e, w) at = caught-Fine py F rq tree 1 p w (ground arith) at
  after_check-Fine p (ok checks, w) at = elim (Bool-cases (is_nil (failed_checks checks))) [
    | inl clean ↦
        rw clean
          (after_rehearse-Fine _ _ (ap (λ r. r ++ (validated ∷ [])) at) (is_nil-eq-true _ clean))
    | inr bad ↦ rw bad (
        stop-Fine py F rq tree 2 false _ _ none w (ground arith)
          (ap (λ r. r ++ (validated ∷ [])) at) refl)
  ]

  pub after_fetch-Fine :
      (r : Result (List FetchedBundle) × W) → Fine (after_fetch py F rq tree start r)
  unfolding after_fetch reach
  after_fetch-Fine (raised e, w) = caught-Fine py F rq tree 0 start w (ground arith) refl
  after_fetch-Fine (ok bundles, w) = after_check-Fine _ _ refl
