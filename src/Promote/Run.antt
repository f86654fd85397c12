-- ===== src/Promote/Run.antt =====
-- `promote` of promote.py: the stages in order. Each function below takes what the facility's method
-- gave and goes on; an exception of a method, or of `verify` inside the `try`, ends in `_stop`.
pub mod Ends
pub mod Steps
use dotmac_observability.Prelude.{
  ℕ, zero, suc, String, Bool, true, false, ◌&&◌, ◌||◌, not, ◌==◌, Option, none, some, List, [], ◌∷◌,
  ◌++◌, map, flat_map, keep, length, is_nil, is_none, eqb, if◌then◌else◌, Dict, sorted,
}
use Prim.Native.String.{◌++◌ as ◌<>◌}
use dotmac_observability.Finding.{Finding, Code}
use dotmac_observability.Result.{Exception, Result, ok, raised, ◌>>=◌}
use dotmac_observability.Platform.{Platform}
use dotmac_observability.Model.{DesiredState, Resolution}
use dotmac_observability.LiveVerify.Records.{
  LiveState, Verification, ConditionResult, verdict, findings_of, deployed_repaired,
  rendered_guarded,
}
use dotmac_observability.LiveVerify.Derive.{declared_probe_slots, integrity_counters}
use dotmac_observability.LiveVerify.Tree.{RenderedTree}
use dotmac_observability.LiveVerify.Verify.{Against, verify}
use dotmac_observability.Receipt.{CheckResult, Receipt, build_receipt}
use dotmac_observability.Receipt
use dotmac_observability.Promote.Records.{
  State, states, fetched, validated, rehearsed, staged, reloaded, verified, accepted, FetchedBundle,
  StagedRelease, ObservationRequest, PromotionFacility, Request, Progress, PromotionOutcome,
}
use dotmac_observability.Promote.Preconditions.{preconditions}
use dotmac_observability.Promote.Stop.{stop, receipt_inputs}

unfoldable pub state_name : State → String
state_name fetched = "FETCHED"
state_name validated = "VALIDATED"
state_name rehearsed = "REHEARSED"
state_name staged = "STAGED"
state_name reloaded = "RELOADED"
state_name verified = "VERIFIED"
state_name accepted = "ACCEPTED"

-- `STATES[index]`, or the last one.
nth_state : ℕ → List State → State
nth_state n [] = accepted
nth_state zero (s ∷ ss) = s
nth_state (suc n) (s ∷ ss) = nth_state n ss

unfoldable pub next_state : List State → String
unfolding nth_state state_name
next_state reached = state_name (nth_state (length reached) states)

unfoldable pub reach : State → Progress → Progress
reach s p = record p { reached = p.reached ++ (s ∷ []) }

-- The rehearsal is held to the conditions 1, 2, 4 and 5.
unfoldable pub in_rehearsal : ConditionResult → Bool
in_rehearsal c = eqb c.number 1 || eqb c.number 2 || eqb c.number 4 || eqb c.number 5

unfoldable pub rehearsal_findings : Verification → List Finding
unfolding in_rehearsal
rehearsal_findings v = flat_map (λ c. c.findings) (keep in_rehearsal v.conditions)

unfoldable pub failed_checks : Dict CheckResult → List String
failed_checks checks =
    sorted (map (λ kv. kv.0) (keep (λ (kv : String × CheckResult). not kv.1.passed) checks))

join : List String → String
join [] = ""
join (s ∷ []) = s
join (s ∷ t ∷ ts) = s <> ", " <> join (t ∷ ts)

unfoldable pub request_for : Request → RenderedTree → String → ObservationRequest
request_for rq tree release = record {
  release = release;
  probe_slots = declared_probe_slots rq.state;
  integrity_counters = integrity_counters rq.state;
  paths = map (λ kv. kv.0) tree;
}

abbrev pub start : Progress
start = record { reached = []; stage = none; bundles = []; validation = []; live = none }

-- What the production read-back is held against.
unfoldable pub production : Request → Against
production rq = record {
  baseline = rq.baseline;
  previous_digest = rq.previous_digest;
  first_promotion = rq.first_promotion;
}

-- A disposable host has no baseline and nothing to roll back to.
unfoldable pub disposable : Against
disposable = record { baseline = none; previous_digest = none; first_promotion = true }

-- `staged.current if staged else ""`.
unfoldable pub current_release : Progress → String
current_release p = elim p.stage [ none ↦ "" | some s ↦ s.current ]

module _ {W : Type 0} (py : Platform) (F : PromotionFacility W) (rq : Request)
    (tree : RenderedTree) where
  -- `except Exception`: the stage that was under way is the next one.
  unfoldable pub caught : Progress → W → Result PromotionOutcome × W
  caught p w =
      stop py F rq tree true p
        (record { code = Code.promotion_stage_raised; location = next_state p.reached } ∷ []) none w

  unfoldable pub after_accept :
      Progress → LiveState → Verification → Result (Unit {0}) × W → Result PromotionOutcome × W
  unfolding reach
  after_accept p live v (raised e, w) =
      stop py F rq tree true p
        (record { code = Code.promotion_stage_raised; location = "ACCEPTED" } ∷ []) (some v) w
  after_accept p live v (ok _, w) = (
    (do
      document ← build_receipt py (receipt_inputs rq tree p) Receipt.accepted (some live)
      ok (record {
        outcome = Receipt.accepted;
        states = (reach accepted p).reached;
        findings = [];
        receipt = some document;
        verification = some v;
        staged = p.stage;
        rolled_back_to = none;
      })),
    w,
  )

  -- The second `verify` stands outside the `try`: what it raises, `promote` raises.
  unfoldable pub after_verify :
      Progress → LiveState → Result Verification → W → Result PromotionOutcome × W
  after_verify p live (raised e) w = (raised e, w)
  after_verify p live (ok v) w = elim (verdict v) [
    | rendered_guarded ↦ stop py F rq tree true p (findings_of v) (some v) w
    | deployed_repaired ↦ after_accept p live v (F.accept rq.named_target (current_release p) w)
  ]

  unfoldable pub after_observe : Progress → Result LiveState × W → Result PromotionOutcome × W
  unfolding reach
  after_observe p (raised e, w) = caught p w
  after_observe p (ok live, w) =
      after_verify (reach verified (record p { live = some live })) live
        (verify py rq.state rq.resolution tree live (production rq)) w

  unfoldable pub after_reload :
      Progress → StagedRelease → Result (Unit {0}) × W → Result PromotionOutcome × W
  unfolding reach
  after_reload p s (raised e, w) = caught p w
  after_reload p s (ok _, w) =
      after_observe (reach reloaded p) (F.observe rq.named_target (request_for rq tree s.current) w)

  unfoldable pub after_stage : Progress → Result StagedRelease × W → Result PromotionOutcome × W
  unfolding reach
  after_stage p (raised e, w) = caught p w
  after_stage p (ok s, w) =
      let q = reach staged (record p { stage = some s }) in
      if is_none s.previous && not rq.first_promotion
      then stop py F rq tree true q
          (record { code = Code.promotion_no_rollback_target; location = rq.named_target } ∷ [])
          none w
      else after_reload q s (F.reload rq.named_target s.current w)

  unfoldable pub judge_rehearsal : Progress → Result Verification → W → Result PromotionOutcome × W
  judge_rehearsal p (raised e) w = caught p w
  judge_rehearsal p (ok v) w =
      if is_nil (rehearsal_findings v)
      then after_stage p (F.stage tree rq.named_target w)
      else stop py F rq tree false p (rehearsal_findings v) none w

  unfoldable pub after_rehearse : Progress → Result LiveState × W → Result PromotionOutcome × W
  unfolding reach
  after_rehearse p (raised e, w) = caught p w
  after_rehearse p (ok rehearsal, w) =
      judge_rehearsal (reach rehearsed p)
        (verify py rq.state rq.resolution tree rehearsal disposable) w

  unfoldable pub after_check :
      Progress → Result (Dict CheckResult) × W → Result PromotionOutcome × W
  unfolding reach join
  after_check p (raised e, w) = caught p w
  after_check p (ok checks, w) =
      let q = reach validated (record p { validation = checks }) in
      if is_nil (failed_checks checks)
      then after_rehearse q (F.rehearse tree (request_for rq tree "rehearsal") w)
      else stop py F rq tree false q
          (record {
            code = Code.promotion_validation_failed;
            location = join (failed_checks checks);
          }
            ∷ [])
          none w

  unfoldable pub after_fetch :
      Progress → Result (List FetchedBundle) × W → Result PromotionOutcome × W
  unfolding reach
  after_fetch p (raised e, w) = caught p w
  after_fetch p (ok bundles, w) =
      after_check (reach fetched (record p { bundles = bundles })) (F.check_configuration tree w)

-- The renderer is an argument: a function of the desired state and the resolution that may raise.
module _ {W : Type 0} (py : Platform)
    (render : DesiredState → Resolution → Result RenderedTree) where
  unfoldable pub promote : PromotionFacility W → Request → W → Result PromotionOutcome × W
  promote F rq w = elim (preconditions rq) [
    | some refused ↦ (ok refused, w)
    | none ↦ elim (render rq.state rq.resolution) [
      | raised e ↦ (raised e, w)
      | ok tree ↦ after_fetch py F rq tree start (F.fetch rq.revision w)
    ]
  ]
