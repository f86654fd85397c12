-- ===== src/Attribution.antt =====
-- src/dotmac_observability/attribution.py: what a bounded scan of a host may be said to have shown.
-- `canonical_digest` and Python's `str` are arguments.
pub mod Vault
pub mod Dsn
pub mod Project
pub mod Verdicts
pub mod Clean
pub mod Private
use Prim.Native.String.{◌++◌ as ◌<>◌}
use dotmac_observability.Prelude.{
  ℕ, ℤ, String, Bool, true, false, not, ◌&&◌, ◌||◌, ◌==◌, Option, none, some, List, [], ◌∷◌, ◌++◌,
  map, keep, length, eqb, is_none, is_nil, if◌then◌else◌, Dict, lookup,
}

pub data Verdict : Type 0 where
  scanned absent unknown : Verdict

pub data Custody : Type 0 where
  attributed unattributed : Custody

pub data InterlockVerdict : Type 0 where
  discharged refused undetermined : InterlockVerdict

abbrev pub declared_families : List String
declared_families =
    "systemd_service" ∷ "systemd_timer" ∷ "systemd_dropin" ∷ "cron" ∷ "anacron" ∷ "at" ∷ "docker"
    ∷ "compose" ∷ "ci_runner" ∷ "script" ∷ "agent" ∷ []

unfoldable pub derive_verdict : Bool → Bool → ℕ → ℕ → Verdict
derive_verdict attempted completed errors found =
    if not attempted
    then unknown
    else if not (eqb errors 0)
    then unknown
    else if not completed
    then unknown
    else if not (eqb found 0)
    then scanned
    else absent

-- `x or y` of two texts or `None`, as a test.
has_text : Option String → Bool
has_text none = false
has_text (some s) = not (s == "")

unfoldable pub derive_custody : Option String → Option String → Custody
unfolding has_text
derive_custody owner_unit owner_principal =
    if has_text owner_unit || has_text owner_principal then attributed else unattributed

pub record FamilyScan : Type 0 where
  pub family : String
  pub attempted : Bool
  pub completed : Bool
  pub errors : List String
  pub found : ℕ
  pub evidence : List String

unfoldable pub verdict_of : FamilyScan → Verdict
unfolding derive_verdict
verdict_of s = derive_verdict s.attempted s.completed (length s.errors) s.found

-- A JSON value, as `_walk` tells the cases apart; of any other object, its `str`.
mutual
  pub data Payload : Type 0 where
    text : String → Payload
    int : ℤ → Payload
    bool : Bool → Payload
    float null : Payload
    object : Members → Payload
    array : Elements → Payload
    other : String → Payload

  pub data Members : Type 0 where
    no_member : Members
    member : String → Payload → Members → Members

  pub data Elements : Type 0 where
    no_element : Elements
    element : Payload → Elements → Elements

-- `isinstance(value, str) and bool(value)` of an entry that may be missing.
unfoldable pub named_text : Option Payload → Option String
named_text (some (text s)) = if s == "" then none else some s
named_text _ = none

unfoldable pub discharges_rotation_interlock :
    (Dict Payload → String) → Dict Payload → Option (Dict Payload) → InterlockVerdict
unfolding named_text
discharges_rotation_interlock digest envelope observation =
    elim (named_text (lookup "observation_digest" envelope)) [
      | none ↦ undetermined
      | some named ↦ elim observation [
        | none ↦ undetermined
        | some o ↦
            if not ("sha256:" <> digest o == named)
            then undetermined
            else if not (is_none (named_text (lookup "collector_artifact_digest" o)))
                && not (is_none (named_text (lookup "source_artifact_digest" o)))
            then discharged
            else refused
      ]
    ]
