-- ===== src/Promote/Preconditions.antt =====
-- `_preconditions` of promote.py: refusals before a single byte is fetched.
use Prim.Native.Char.{Char, code}
use Prim.Native.String.{count}
use dotmac_observability.Prelude.{
  String, Bool, true, not, ◌&&◌, ◌||◌, ◌==◌, ◌!=◌, Option, none, some, [], ◌∷◌, leb, eqb,
  if◌then◌else◌,
}
use dotmac_observability.Finding.{Code}
use dotmac_observability.Receipt.{failed}
use dotmac_observability.Promote.Records.{Request, PromotionOutcome}

unfoldable pub refusal : Code → String → PromotionOutcome
refusal code location = record {
  outcome = failed;
  states = [];
  findings = record { code = code; location = location } ∷ [];
  receipt = none;
  verification = none;
  staged = none;
  rolled_back_to = none;
}

is_hex : Char → Bool
is_hex c = (leb b'0' (code c) && leb (code c) b'9') || (leb b'a' (code c) && leb (code c) b'f')

all_hex : String → Bool
unfolding is_hex
all_hex String.[] = true
all_hex (String.◌∷◌ c s) = is_hex c && all_hex s

-- An exact commit: forty hexadecimal digits.
unfoldable pub is_exact : String → Bool
unfolding all_hex
is_exact revision = eqb (count revision) 40 && all_hex revision

unfoldable pub preconditions : Request → Option PromotionOutcome
unfolding refusal
preconditions rq =
    if rq.named_target == ""
    then some (refusal Code.promotion_target_unnamed "named_target")
    else if rq.named_target != rq.state.control_plane.host.target_id
    then some (refusal Code.promotion_target_mismatch rq.named_target)
    else if not (is_exact rq.revision.revision)
    then some (refusal Code.promotion_revision_not_exact rq.revision.revision)
    else if rq.revision.oracle_ref == ""
    then some (refusal Code.promotion_revision_unproven rq.revision.revision)
    else if rq.authorization.plan_digest == "" || rq.authorization.approval_decision_ref == ""
    then some (refusal Code.promotion_unauthorized "authorization")
    else none
