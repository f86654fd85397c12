-- ===== src/Promote/Records.antt =====
-- The states, the facility and the outcome of src/dotmac_observability/promote.py. The facility is
-- implemented elsewhere: its methods take a world and give it back changed, and each may raise.
use dotmac_observability.Prelude.{ℕ, String, Bool, Option, List, [], ◌∷◌, Dict}
use dotmac_observability.Finding.{Finding}
use dotmac_observability.Result.{Result}
use dotmac_observability.Model.{DesiredState, Resolution, PrivateInventory}
use dotmac_observability.LiveVerify.Records.{LiveState, Verification}
use dotmac_observability.LiveVerify.Tree.{RenderedTree}
use dotmac_observability.Receipt.{Authorization, ImageRecord, CheckResult, Runs, Receipt, Outcome}

pub data State : Type 0 where
  fetched validated rehearsed staged reloaded verified accepted : State

-- STATES.
abbrev pub states : List State
states = fetched ∷ validated ∷ rehearsed ∷ staged ∷ reloaded ∷ verified ∷ accepted ∷ []

-- `STATES.index("STAGED")`.
abbrev pub rollback_from : ℕ
rollback_from = 3

pub record AssertedRevision : Type 0 where
  pub revision : String
  pub oracle_ref : String

pub record FetchedBundle : Type 0 where
  pub product : String
  pub source_revision : String
  pub rules_sha256 : String
  pub rule_count : ℕ

pub record StagedRelease : Type 0 where
  pub current : String
  pub previous : Option String

pub record ObservationRequest : Type 0 where
  pub release : String
  pub probe_slots : List (String × String)
  pub integrity_counters : List String
  pub paths : List String

pub record PromotionFacility (W : Type 0) : Type 0 where
  pub fetch : AssertedRevision → W → Result (List FetchedBundle) × W
  pub check_configuration : RenderedTree → W → Result (Dict CheckResult) × W
  pub rehearse : RenderedTree → ObservationRequest → W → Result LiveState × W
  pub stage : RenderedTree → String → W → Result StagedRelease × W
  pub reload : String → String → W → Result (Unit {0}) × W
  pub observe : String → ObservationRequest → W → Result LiveState × W
  pub rollback : String → String → W → Result LiveState × W
  pub accept : String → String → W → Result (Unit {0}) × W

-- The arguments of `promote`, beside the facility.
pub record Request : Type 0 where
  pub state : DesiredState
  pub resolution : Resolution
  pub inventory : PrivateInventory
  pub named_target : String
  pub revision : AssertedRevision
  pub authorization : Authorization
  pub authorized_images : List ImageRecord
  pub baseline : Option LiveState
  pub previous_digest : Option String
  pub first_promotion : Bool
  pub runs : Runs
  pub started_at : String
  pub finished_at : String

-- The local variables of `promote` that a stop reads.
pub record Progress : Type 0 where
  pub reached : List State
  pub stage : Option StagedRelease
  pub bundles : List FetchedBundle
  pub validation : Dict CheckResult
  pub live : Option LiveState

pub record PromotionOutcome : Type 0 where
  pub outcome : Outcome
  pub states : List State
  pub findings : List Finding
  pub receipt : Option Receipt
  pub verification : Option Verification
  pub staged : Option StagedRelease
  pub rolled_back_to : Option String
