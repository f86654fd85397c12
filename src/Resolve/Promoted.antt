-- ===== src/Resolve/Promoted.antt =====
-- What a promotion of a resolved state may raise.
use dotmac_observability.Prelude.{◌≡◌, ◌⊎◌, inl, inr}
use dotmac_observability.Result.{Result, ok, raised, Exception, type_error}
use dotmac_observability.Platform.{Platform}
use dotmac_observability.Model.{DesiredState, Resolution}
use dotmac_observability.LiveVerify.Records.{LiveState}
use dotmac_observability.LiveVerify.Tree.{RenderedTree}
use dotmac_observability.Promote.Records.{PromotionFacility, Request}
use dotmac_observability.Promote.Run.{promote, production}
use dotmac_observability.Promote.Ending.{promote-raised}
use dotmac_observability.Resolve.Join.{resolve}
use dotmac_observability.Resolve.Total.{DatasourcesDeclared}
use dotmac_observability.Resolve.Verified.{MixedDates, verify-MixedDates}

module _ {W : Type 0} (py : Platform) (render : DesiredState → Resolution → Result RenderedTree)
    (F : PromotionFacility W) where
  -- Where the request's resolution is the one that resolve returned for its state and inventory
  -- and every datasource that names a target names one that a job declares, an exception that
  -- promote raises is the renderer's, or it is a type error and some read-back has a date with an
  -- offset where the request's baseline has one without, or the other way round.
  pub promote-MixedDates :
      (rq : Request) (w : W) (e : Exception)
      → DatasourcesDeclared rq.state
      → resolve rq.state rq.inventory ≡ ok rq.resolution
      → (promote py render F rq w).0 ≡ raised e
      → (render rq.state rq.resolution ≡ raised e)
        ⊎ ((e ≡ type_error) × ((live : LiveState) × MixedDates py live rq.baseline))
  unfolding production
  promote-MixedDates rq w e declared resolved h =
      let (_, why) = promote-raised py render F rq w e h in
      elim why [
        | inl r ↦ inl r
        | inr u ↦
            let (tree, _, unjudged) = u in
            let (live, v) = unjudged in
            inr (
              let (type, mixed) =
                verify-MixedDates py rq.state rq.inventory rq.resolution tree live (production rq) e
                  declared resolved v in
              (type, (live, mixed)))
      ]
