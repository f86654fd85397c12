-- ===== src/LiveVerify/Rollback.antt =====
-- Condition 6 of live_verify.py: the rollback restored the previous digest.
pub mod Restored
use dotmac_observability.Prelude.{
  String, Bool, not, ◌==◌, Option, none, some, List, [], ◌∷◌, ◌++◌, when, is_none, if◌then◌else◌,
}
use dotmac_observability.Finding.{Finding, Code}
use dotmac_observability.LiveVerify.Records.{LiveState, LiveRollback}

-- `rollback.digest_absence == "nothing_restored"`.
unfoldable pub nothing_restored : Option String → Bool
nothing_restored none = Bool.false
nothing_restored (some absence) = absence == "nothing_restored"

unfoldable pub digest_findings : String → LiveRollback → Option String → List Finding
digest_findings current rollback none =
    record { code = Code.rollback_baseline_absent; location = current } ∷ []
digest_findings current rollback (some previous) = elim rollback.restored_digest [
  | none ↦
      if nothing_restored rollback.digest_absence
      then record { code = Code.rollback_restored_nothing; location = current } ∷ []
      else record { code = Code.rollback_order_unknown; location = current } ∷ []
  | some restored ↦
      if restored == previous
      then []
      else record { code = Code.rollback_digest_mismatch; location = current } ∷ []
]

unfoldable pub restore_findings : String → Option LiveRollback → Option String → Bool → List Finding
restore_findings current none previous_digest first_promotion =
    record { code = Code.rollback_not_exercised; location = current } ∷ []
restore_findings current (some rollback) previous_digest first_promotion =
    if not rollback.exercised
    then record { code = Code.rollback_not_exercised; location = current } ∷ []
    else when (not rollback.succeeded)
        (record { code = Code.rollback_failed; location = current } ∷ [])
      ++ when (not first_promotion) (
          when (is_none rollback.restored_release)
            (record { code = Code.rollback_target_absent; location = current } ∷ [])
          ++ digest_findings current rollback previous_digest)

unfoldable pub rollback_findings : LiveState → Option String → Bool → List Finding
rollback_findings live previous_digest first_promotion =
    restore_findings live.release.current live.rollback previous_digest first_promotion
