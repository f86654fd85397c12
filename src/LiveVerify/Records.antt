-- ===== src/LiveVerify/Records.antt =====
-- The read-back of a running control plane, and the six conditions' result: the records of
-- src/dotmac_observability/live_verify.py.
use dotmac_observability.Prelude.{ℕ, String, Bool, Option, List, ◌∷◌, [], is_nil, flat_map, keep}
use dotmac_observability.Prelude.{
  ◌&&◌, true, false, if◌then◌else◌, not, ◌≡◌, arith, is_nil-append_and,
}
use dotmac_observability.Finding.{Finding}

pub record TreeEntry : Type 0 where
  pub path : String
  pub sha256 : String

pub record LiveRelease : Type 0 where
  pub current : String
  pub previous : Option String

pub record LiveTarget : Type 0 where
  pub job : String
  pub health : String

pub record LiveRule : Type 0 where
  pub group : String
  pub name : String
  pub health : String

pub record LiveRoute : Type 0 where
  pub identifier : String
  pub receiver : String

-- The start time is a float that is only compared for equality: a number stands for it.
pub record IntegrityReading : Type 0 where
  pub counter : String
  pub value : ℕ
  pub process_start_time : ℕ

pub record LiveCanary : Type 0 where
  pub fired : Bool
  pub delivered : Bool
  pub recovered : Bool
  pub receiver : String
  pub receiver_evidence_ref : Option String

pub record LiveProbe : Type 0 where
  pub surface : String
  pub family : String
  pub chain : String
  pub expectation : String
  pub outcome : String
  pub control_outcome : String
  pub control_evidence_ref : Option String

pub record LiveRollback : Type 0 where
  pub exercised : Bool
  pub restored_release : Option String
  pub restored_digest : Option String
  pub digest_absence : Option String
  pub succeeded : Bool

pub record LiveState : Type 0 where
  pub observed_at : String
  pub environment : String
  pub host_target_id : String
  pub release : LiveRelease
  pub tree : List TreeEntry
  pub targets : List LiveTarget
  pub rules : List LiveRule
  pub routes : List LiveRoute
  pub integrity : List IntegrityReading
  pub canary : LiveCanary
  pub probes : List LiveProbe
  pub rollback : Option LiveRollback

pub data Verdict : Type 0 where
  rendered_guarded deployed_repaired : Verdict

-- A condition is known by its number; its name is prose.
pub record ConditionResult : Type 0 where
  pub number : ℕ
  pub findings : List Finding

unfoldable pub passed : ConditionResult → Bool
passed c = is_nil c.findings

-- The constructor's check of the six numbers is met by the two places that build one.
pub record Verification : Type 0 where
  pub conditions : List ConditionResult

unfoldable pub findings_of : Verification → List Finding
findings_of v = flat_map (λ c. c.findings) v.conditions

all_passed : List ConditionResult → Bool
unfolding passed
all_passed [] = true
all_passed (c ∷ cs) = passed c && all_passed cs

unfoldable pub verdict : Verification → Verdict
unfolding all_passed
verdict v = if all_passed v.conditions then deployed_repaired else rendered_guarded

unfoldable pub unmet : Verification → List ConditionResult
unfolding passed
unmet v = keep (λ c. not (passed c)) v.conditions

findings_of_failed :
    (cs : List ConditionResult)
    → all_passed cs ≡ false
    → is_nil (flat_map (λ (c : ConditionResult). c.findings) cs) ≡ false
unfolding all_passed passed
findings_of_failed [] h = absurd (ground arith)
findings_of_failed (c ∷ cs) h = ground (
  arith,
  is_nil-append_and c.findings (flat_map (λ (c : ConditionResult). c.findings) cs),
  findings_of_failed cs,
)

-- A guarded verdict has a finding to show.
pub findings_of-guarded :
    (v : Verification) → verdict v ≡ rendered_guarded → is_nil (findings_of v) ≡ false
unfolding findings_of verdict
findings_of-guarded v h = findings_of_failed v.conditions (ground arith)
