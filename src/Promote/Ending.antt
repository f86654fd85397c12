-- ===== src/Promote/Ending.antt =====
-- `promote` from its preconditions to its return: refused, accepted, stopped, or raised.
use mathlib.Core.Path.{subst}
use dotmac_observability.Prelude.{◌≡◌, ◌⊎◌, inl, inr, refl, sym, ap, ◌∙◌, Option-cases}
use dotmac_observability.Result.{
  Result, ok, raised, Result-cases, ok-injective, raised-injective, Exception,
}
use dotmac_observability.Platform.{Platform}
use dotmac_observability.Model.{DesiredState, Resolution}
use dotmac_observability.LiveVerify.Tree.{RenderedTree}
use dotmac_observability.LiveVerify.Repaired.{Repaired, verify-Repaired_iff}
use dotmac_observability.Receipt
use dotmac_observability.Receipt.{Receipt, Outcome, failed, rolled_back}
use dotmac_observability.Promote.Records.{PromotionFacility, Request, PromotionOutcome}
use dotmac_observability.Promote.Preconditions.{preconditions}
use dotmac_observability.Promote.Admission.{
  Admissible, Refused, preconditions-none_iff, preconditions-Refused,
}
use dotmac_observability.Promote.Run.{production, promote, after_fetch, start}
use dotmac_observability.Promote.Run.Ends.{
  Good, Unjudged, Ending, Acceptance, Stopped, accepted_by, stopped_by,
}
use dotmac_observability.Promote.Run.Steps.{after_fetch-Fine}

Stopped-not_accepted :
    {W : Type 0} (py : Platform) (F : PromotionFacility W) (rq : Request) (o : PromotionOutcome)
    → o.outcome ≡ Receipt.accepted
    → ¬ Stopped py F rq o
Stopped-not_accepted py F rq o k s = elim s.settled [
  | inl u ↦ absurd (cc (k, u.0))
  | inr r ↦ absurd (cc (k, r.outcome))
]

module _ {W : Type 0} (py : Platform) (render : DesiredState → Resolution → Result RenderedTree)
    (F : PromotionFacility W) where
  -- If a request is not admissible, promote returns a failed outcome with a finding, no state, no
  -- receipt and no staged release, and leaves the facility's world as it was.
  pub promote-refusal :
      (rq : Request) (w : W)
      → ¬ Admissible rq
      → (o : PromotionOutcome) × (promote py render F rq w ≡ (ok o, w)) × Refused o
  unfolding promote
  promote-refusal rq w bad = elim (Option-cases (preconditions rq)) [
    | inl p ↦ absurd (bad ((preconditions-none_iff rq).0 p))
    | inr (o, p) ↦ (o, rw (p, promote) refl, preconditions-Refused rq o p)
  ]

  -- An admissible request whose tree does not render raises what the renderer raised, and the
  -- facility is not called.
  promote_unrendered :
      (rq : Request) (w : W) (e : Exception)
      → Admissible rq
      → render rq.state rq.resolution ≡ raised e
      → promote py render F rq w ≡ (raised e, w)
  unfolding promote
  promote_unrendered rq w e a r = rw ((preconditions-none_iff rq).1 a, r, promote) refl

  promote_rendered :
      (rq : Request) (w : W) (tree : RenderedTree)
      → Admissible rq
      → render rq.state rq.resolution ≡ ok tree
      → promote py render F rq w ≡ after_fetch py F rq tree start (F.fetch rq.revision w)
  unfolding promote
  promote_rendered rq w tree a r = rw ((preconditions-none_iff rq).1 a, r, promote) refl

  -- For an admissible request whose tree renders, an outcome that promote returns is either an
  -- acceptance, or a stop: it lists a proper prefix of the seven states and at least one finding,
  -- files a receipt, and either failed and names no release that it was rolled back to, or was
  -- rolled back, after STAGED, to the release that staging captured: the facility, asked to roll
  -- the named target back to that release, gave a read-back with a rollback record, and the
  -- receipt describes that read-back.
  pub promote-Ending :
      (rq : Request) (w : W) (tree : RenderedTree) (o : PromotionOutcome)
      → Admissible rq
      → render rq.state rq.resolution ≡ ok tree
      → (promote py render F rq w).0 ≡ ok o
      → Ending py F rq tree o
  promote-Ending rq w tree o a r h =
      subst (Good py F rq tree) (ap (λ x. x.0) (sym (promote_rendered rq w tree a r)) ∙ h)
        (after_fetch-Fine py F rq tree (F.fetch rq.revision w))

  Good_of :
      (rq : Request) (w : W) (tree : RenderedTree)
      → Admissible rq
      → render rq.state rq.resolution ≡ ok tree
      → Good py F rq tree (promote py render F rq w).0
  Good_of rq w tree a r =
      subst (Good py F rq tree) (ap (λ x. x.0) (sym (promote_rendered rq w tree a r)))
        (after_fetch-Fine py F rq tree (F.fetch rq.revision w))

  -- What a promotion ran with, by what it gave.
  reasons :
      (rq : Request) (w : W) (r : Result PromotionOutcome)
      → (promote py render F rq w).0 ≡ r
      → ((o : PromotionOutcome) × (r ≡ ok o) × Refused o)
        ⊎ (Admissible rq
            × (((e : Exception) × (r ≡ raised e) × (render rq.state rq.resolution ≡ raised e))
                ⊎ ((tree : RenderedTree) × (render rq.state rq.resolution ≡ ok tree)
                    × Good py F rq tree r)))
  unfolding promote
  reasons rq w r h = elim (Option-cases (preconditions rq)) [
    | inr (o, p) ↦ inl (o, sym h ∙ rw (p, promote) refl, preconditions-Refused rq o p)
    | inl p ↦
        let a = (preconditions-none_iff rq).0 p in
        elim (Result-cases (render rq.state rq.resolution)) [
          | inl (tree, q) ↦
              inr (a, inr (tree, q, subst (Good py F rq tree) h (Good_of rq w tree a q)))
          | inr (e, q) ↦ inr (a, inl (e, sym h ∙ ap (λ x. x.0) (promote_unrendered rq w e a q), q))
        ]
  ]

  -- If promote returns an outcome that is accepted, then the request was admissible, the tree
  -- rendered, the outcome lists all seven states and no finding, its receipt describes the read-
  -- back, no evaluator check failed, a release was staged that has a previous one (unless it is
  -- the first promotion), and that read-back meets all six conditions against the baseline and the
  -- previous digest of the request.
  pub promote-accepted :
      (rq : Request) (w : W) (o : PromotionOutcome)
      → (promote py render F rq w).0 ≡ ok o
      → o.outcome ≡ Receipt.accepted
      → Admissible rq
        × ((tree : RenderedTree) × (render rq.state rq.resolution ≡ ok tree)
            × (c : Acceptance py rq tree o) × Repaired py rq.state rq.resolution tree c.live
                (production rq))
  promote-accepted rq w o h k = elim (reasons rq w (ok o) h) [
    | inl (o', p, refused) ↦
        absurd (cc (k, refused.outcome, ap (λ (x : PromotionOutcome). x.outcome) (ok-injective p)))
    | inr (a, inl (e, p, q)) ↦ absurd (cc)
    | inr (a, inr (tree, q, accepted_by c)) ↦ (
      a,
      (
        tree,
        q,
        c,
        (verify-Repaired_iff py rq.state rq.resolution tree c.live (production rq)).0
            (c.verification, c.measured, c.repaired),
      ),
    )
    | inr (a, inr (tree, q, stopped_by s)) ↦ absurd (Stopped-not_accepted py F rq o k s)
  ]

  -- If promote raises, then the request was admissible, and either the renderer raised that
  -- exception, or the tree rendered and verify raised it on some read-back held against the
  -- request's baseline.
  pub promote-raised :
      (rq : Request) (w : W) (e : Exception)
      → (promote py render F rq w).0 ≡ raised e
      → Admissible rq
        × ((render rq.state rq.resolution ≡ raised e)
            ⊎ ((tree : RenderedTree) × (render rq.state rq.resolution ≡ ok tree)
                × Unjudged py rq tree e))
  promote-raised rq w e h = elim (reasons rq w (raised e) h) [
    | inl (o, p, refused) ↦ absurd (cc)
    | inr (a, inl (e', p, q)) ↦ (a, inl (q ∙ ap raised (raised-injective (sym p))))
    | inr (a, inr (tree, q, u)) ↦ (a, inr (tree, q, u))
  ]
