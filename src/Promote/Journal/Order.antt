-- ===== src/Promote/Journal/Order.antt =====
-- The calls go forward in one order, and a rollback, if any, comes last and after staging.
use dotmac_observability.Prelude.{
  ℕ, ◌≡◌, inl, inr, refl, ap, true, false, ◌&&◌, not, none, some, Option-cases, Bool-cases, List,
  [], ◌∷◌, ◌++◌, arith, take, is_nil, is_none, Dict,
}
use dotmac_observability.Result.{Result, ok, raised, Result-cases}
use dotmac_observability.Platform.{Platform}
use dotmac_observability.Model.{DesiredState, Resolution}
use dotmac_observability.LiveVerify.Records.{
  LiveState, Verification, Verdict, verdict, findings_of, deployed_repaired, rendered_guarded,
}
use dotmac_observability.LiveVerify.Tree.{RenderedTree}
use dotmac_observability.Receipt.{CheckResult}
use dotmac_observability.Promote.Records.{
  FetchedBundle, StagedRelease, PromotionFacility, Request, Progress,
}
use dotmac_observability.Promote.Preconditions.{preconditions}
use dotmac_observability.Promote.Run.{
  start, reach, failed_checks, rehearsal_findings, caught, after_accept, after_verify,
  after_observe, after_reload, after_stage, judge_rehearsal, after_rehearse, after_check,
  after_fetch, promote,
}
use dotmac_observability.Promote.Journal.{Call, forward, journal}
use dotmac_observability.Promote.Journal.{
  check_call, rehearse_call, stage_call, reload_call, observe_call, accept_call,
}
use dotmac_observability.Promote.Journal.Stops.{Ordered, Phase, stop-Ordered}

module _ {W : Type 0} (py : Platform) (F : PromotionFacility W) (rq : Request)
    (tree : RenderedTree) where
  abbrev World : Type 0
  World = W × List Call

  caught-Ordered :
      (n : ℕ) (p : Progress) (w : World)
      → w.1 ≡ take n forward
      → Phase n p
      → Ordered (caught py (journal F) rq tree p w).1.1
  unfolding caught
  caught-Ordered n p w at phase = stop-Ordered py F rq tree n true p _ none w at phase

  after_accept-Ordered :
      (p : Progress) (live : LiveState) (v : Verification) (r : Result (Unit {0}) × World)
      → r.1.1 ≡ take 7 forward
      → Ordered (after_accept py (journal F) rq tree p live v r).1.1
  unfolding after_accept
  after_accept-Ordered p live v (raised e, w) at =
      stop-Ordered py F rq tree 7 true p _ (some v) w at (inr (omega arith))
  after_accept-Ordered p live v (ok _, w) at = (7, inl at)

  after_verify-Ordered :
      (p : Progress) (live : LiveState) (r : Result Verification) (w : World)
      → w.1 ≡ take 6 forward
      → Ordered (after_verify py (journal F) rq tree p live r w).1.1
  unfolding after_verify
  after_verify-Ordered p live (raised e) w at = (6, inl at)
  after_verify-Ordered p live (ok v) (w, calls) at = judge (verdict v) refl
    where
      judge :
          (d : Verdict)
          → verdict v ≡ d
          → Ordered (after_verify py (journal F) rq tree p live (ok v) (w, calls)).1.1
      judge rendered_guarded d =
          rw (d, after_verify)
            (stop-Ordered py F rq tree 6 true p (findings_of v) (some v) (w, calls) at
              (inr (omega arith)))
      judge deployed_repaired d =
          rw (d, after_verify)
            (after_accept-Ordered p live v _ (ap (λ cs. cs ++ (accept_call ∷ [])) at))

  after_observe-Ordered :
      (p : Progress) (r : Result LiveState × World)
      → r.1.1 ≡ take 6 forward
      → Ordered (after_observe py (journal F) rq tree p r).1.1
  unfolding after_observe reach
  after_observe-Ordered p (raised e, w) at = caught-Ordered 6 p w at (inr (omega arith))
  after_observe-Ordered p (ok live, w) at = after_verify-Ordered _ live _ w at

  after_reload-Ordered :
      (p : Progress) (s : StagedRelease) (r : Result (Unit {0}) × World)
      → r.1.1 ≡ take 5 forward
      → Ordered (after_reload py (journal F) rq tree p s r).1.1
  unfolding after_reload reach
  after_reload-Ordered p s (raised e, w) at = caught-Ordered 5 p w at (inr (omega arith))
  after_reload-Ordered p s (ok _, (w, calls)) at =
      after_observe-Ordered _ _ (ap (λ cs. cs ++ (observe_call ∷ [])) at)

  after_stage-Ordered :
      (p : Progress) (r : Result StagedRelease × World)
      → r.1.1 ≡ take 4 forward
      → Ordered (after_stage py (journal F) rq tree p r).1.1
  unfolding after_stage reach
  after_stage-Ordered p (raised e, w) at = caught-Ordered 4 p w at (inr (omega arith))
  after_stage-Ordered p (ok s, (w, calls)) at =
      elim (Bool-cases (is_none s.previous && not rq.first_promotion)) [
        | inl bare ↦
            rw bare (stop-Ordered py F rq tree 4 true _ _ none (w, calls) at (inr (omega arith)))
        | inr held ↦ rw held (after_reload-Ordered _ s _ (ap (λ cs. cs ++ (reload_call ∷ [])) at))
      ]

  judge_rehearsal-Ordered :
      (p : Progress) (r : Result Verification) (w : World)
      → w.1 ≡ take 3 forward
      → p.stage ≡ none
      → Ordered (judge_rehearsal py (journal F) rq tree p r w).1.1
  unfolding judge_rehearsal
  judge_rehearsal-Ordered p (raised e) w at early = caught-Ordered 3 p w at (inl early)
  judge_rehearsal-Ordered p (ok v) (w, calls) at early =
      elim (Bool-cases (is_nil (rehearsal_findings v))) [
        | inl quiet ↦ rw quiet (after_stage-Ordered p _ (ap (λ cs. cs ++ (stage_call ∷ [])) at))
        | inr noisy ↦
            rw noisy (stop-Ordered py F rq tree 3 false p _ none (w, calls) at (inl early))
      ]

  after_rehearse-Ordered :
      (p : Progress) (r : Result LiveState × World)
      → r.1.1 ≡ take 3 forward
      → p.stage ≡ none
      → Ordered (after_rehearse py (journal F) rq tree p r).1.1
  unfolding after_rehearse reach
  after_rehearse-Ordered p (raised e, w) at early = caught-Ordered 3 p w at (inl early)
  after_rehearse-Ordered p (ok live, w) at early = judge_rehearsal-Ordered _ _ w at early

  after_check-Ordered :
      (p : Progress) (r : Result (Dict CheckResult) × World)
      → r.1.1 ≡ take 2 forward
      → p.stage ≡ none
      → Ordered (after_check py (journal F) rq tree p r).1.1
  unfolding after_check reach
  after_check-Ordered p (raised e, w) at early = caught-Ordered 2 p w at (inl early)
  after_check-Ordered p (ok checks, (w, calls)) at early =
      elim (Bool-cases (is_nil (failed_checks checks))) [
        | inl clean ↦
            rw clean (after_rehearse-Ordered _ _ (ap (λ cs. cs ++ (rehearse_call ∷ [])) at) early)
        | inr bad ↦ rw bad (stop-Ordered py F rq tree 2 false _ _ none (w, calls) at (inl early))
      ]

  pub after_fetch-Ordered :
      (r : Result (List FetchedBundle) × World)
      → r.1.1 ≡ take 1 forward
      → Ordered (after_fetch py (journal F) rq tree start r).1.1
  unfolding after_fetch reach
  after_fetch-Ordered (raised e, w) at = caught-Ordered 1 start w at (inl refl)
  after_fetch-Ordered (ok bundles, (w, calls)) at =
      after_check-Ordered _ _ (ap (λ cs. cs ++ (check_call ∷ [])) at) refl

module _ {W : Type 0} (py : Platform) (render : DesiredState → Resolution → Result RenderedTree)
    (F : PromotionFacility W) where
  -- Whatever promote returns or raises, the calls it makes on a facility are a prefix of fetch,
  -- check_configuration, rehearse, stage, reload, observe, accept, or such a prefix that includes
  -- stage followed by one rollback: no stage is skipped or repeated, and nothing follows a
  -- rollback.
  pub promote-Ordered :
      (rq : Request) (w : W) → Ordered (promote py render (journal F) rq (w, [])).1.1
  unfolding promote
  promote-Ordered rq w = elim (Option-cases (preconditions rq)) [
    | inr (o, p) ↦ rw (p, promote) (0, inl refl)
    | inl p ↦ elim (Result-cases (render rq.state rq.resolution)) [
      | inr (e, q) ↦ rw (p, q, promote) (0, inl refl)
      | inl (tree, q) ↦ rw (p, q, promote) (after_fetch-Ordered py F rq tree _ refl)
    ]
  ]
