-- ===== src/Promote/Journal.antt =====
-- A facility that writes down the calls made on it, and the order of those calls under `promote`.
pub mod Stops
pub mod Order
use dotmac_observability.Prelude.{String, List, [], ◌∷◌, ◌++◌}
use dotmac_observability.Result.{Result}
use dotmac_observability.Promote.Records.{PromotionFacility}

-- A call of one of the facility's methods; of a rollback, the release it is to restore.
pub data Call : Type 0 where
  fetch_call check_call rehearse_call stage_call reload_call observe_call accept_call : Call
  rollback_call : String → Call

abbrev pub forward : List Call
forward =
    fetch_call ∷ check_call ∷ rehearse_call ∷ stage_call ∷ reload_call ∷ observe_call ∷ accept_call
    ∷ []

-- What a method gave, with the call written down behind the ones before it.
abbrev pub noted : {W : Type 0} {A : Type 0} → Call → List Call → A × W → A × (W × List Call)
noted call calls (a, w) = (a, (w, calls ++ (call ∷ [])))

abbrev pub journal : {W : Type 0} → PromotionFacility W → PromotionFacility (W × List Call)
journal F = record {
  fetch = λ revision (w, calls). noted fetch_call calls (F.fetch revision w);
  check_configuration = λ tree (w, calls). noted check_call calls (F.check_configuration tree w);
  rehearse = λ tree wanted (w, calls). noted rehearse_call calls (F.rehearse tree wanted w);
  stage = λ tree target (w, calls). noted stage_call calls (F.stage tree target w);
  reload = λ target release (w, calls). noted reload_call calls (F.reload target release w);
  observe = λ target wanted (w, calls). noted observe_call calls (F.observe target wanted w);
  rollback = λ target release (w, calls).
      noted (rollback_call release) calls (F.rollback target release w);
  accept = λ target release (w, calls). noted accept_call calls (F.accept target release w);
}
