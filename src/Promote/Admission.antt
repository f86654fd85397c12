-- ===== src/Promote/Admission.antt =====
-- What `_preconditions` admits.
use dotmac_observability.Prelude.{
  ◌≡◌, ◌≢◌, ◌==◌, ◌!=◌, ◌↔◌, refl, String, Bool, true, false, Option, none, some, arith, eq_iff, [],
  is_nil, if◌then◌else◌, not, ◌||◌,
}
use dotmac_observability.Receipt.{failed}
use mathlib.Core.Path.{subst}
use mathlib.Core.Option.{some-injective}
use dotmac_observability.Finding.{Code}
use dotmac_observability.Promote.Records.{Request, PromotionOutcome}
use dotmac_observability.Promote.Preconditions.{preconditions, refusal, is_exact}

-- The named target is this host's, the revision is an exact commit that something vouches for, and
-- a plan was approved.
pub record Admissible (rq : Request) : Type 0 where
  pub named : rq.named_target ≢ ""
  pub this_host : rq.named_target ≡ rq.state.control_plane.host.target_id
  pub exact : is_exact rq.revision.revision ≡ true
  pub proven : rq.revision.oracle_ref ≢ ""
  pub planned : rq.authorization.plan_digest ≢ ""
  pub approved : rq.authorization.approval_decision_ref ≢ ""

-- The promotion was refused with a reason, before any stage.
pub record Refused (o : PromotionOutcome) : Type 0 where
  pub outcome : o.outcome ≡ failed
  pub no_stage : o.states ≡ []
  pub reported : is_nil o.findings ≡ false
  pub no_receipt : o.receipt ≡ none
  pub no_release : o.staged ≡ none
  pub nowhere : o.rolled_back_to ≡ none

preconditions-none_all :
    (rq : Request)
    → (preconditions rq ≡ none) ↔ (
        (rq.named_target ≢ "")
        × (rq.named_target ≡ rq.state.control_plane.host.target_id)
        × (is_exact rq.revision.revision ≡ true)
        × (rq.revision.oracle_ref ≢ "")
        × (rq.authorization.plan_digest ≢ "")
        × (rq.authorization.approval_decision_ref ≢ ""))
unfolding preconditions
preconditions-none_all rq = ground (
  arith,
  eq_iff rq.named_target "",
  eq_iff rq.named_target rq.state.control_plane.host.target_id,
  eq_iff rq.revision.oracle_ref "",
  eq_iff rq.authorization.plan_digest "",
  eq_iff rq.authorization.approval_decision_ref "",
)

-- The preconditions let a request pass exactly when it names a target that is the declared host,
-- its revision is an exact commit with an oracle reference, and its authorization has a plan
-- digest and an approval decision.
pub preconditions-none_iff : (rq : Request) → (preconditions rq ≡ none) ↔ Admissible rq
preconditions-none_iff rq = (
  λ h.
      let (named, this_host, exact, proven, planned, approved) = (preconditions-none_all rq).0 h in
      record {
        named = named;
        this_host = this_host;
        exact = exact;
        proven = proven;
        planned = planned;
        approved = approved;
      },
  λ a.
      (preconditions-none_all rq).1
        (a.named, a.this_host, a.exact, a.proven, a.planned, a.approved),
)

refusal-Refused : (code : Code) (location : String) → Refused (refusal code location)
unfolding refusal
refusal-Refused code location = record {
  outcome = refl;
  no_stage = refl;
  reported = refl;
  no_receipt = refl;
  no_release = refl;
  nowhere = refl;
}

none-Refused : (o : PromotionOutcome) → none ≡ some o → Refused o
none-Refused o e = absurd (cc)

choice-Refused :
    (b : Bool) (first o : PromotionOutcome) (rest : Option PromotionOutcome)
    → Refused first
    → (rest ≡ some o → Refused o)
    → (if b then some first else rest) ≡ some o
    → Refused o
choice-Refused true first o rest f r e = subst Refused (some-injective _ _ e) f
choice-Refused false first o rest f r e = r e

pub preconditions-Refused :
    (rq : Request) (o : PromotionOutcome) → preconditions rq ≡ some o → Refused o
unfolding preconditions
preconditions-Refused rq o =
    choice-Refused (rq.named_target == "") _ o _
      (refusal-Refused Code.promotion_target_unnamed "named_target")
      (choice-Refused (rq.named_target != rq.state.control_plane.host.target_id) _ o _
        (refusal-Refused Code.promotion_target_mismatch rq.named_target)
        (choice-Refused (not (is_exact rq.revision.revision)) _ o _
          (refusal-Refused Code.promotion_revision_not_exact rq.revision.revision)
          (choice-Refused (rq.revision.oracle_ref == "") _ o _
            (refusal-Refused Code.promotion_revision_unproven rq.revision.revision)
            (choice-Refused
              (rq.authorization.plan_digest == "" || rq.authorization.approval_decision_ref == "") _
              o _ (refusal-Refused Code.promotion_unauthorized "authorization") (none-Refused o)))))
