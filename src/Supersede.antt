-- ===== src/Supersede.antt =====
-- The succession of a private inventory in src/dotmac_observability/validate.py: `supersede_findings`
-- (compare and set), `supersede_summary` and `apply_supersession` (the retirement of entries).
pub mod Succession
pub mod Retire
pub mod Migration
use dotmac_observability.Prelude.{
  ℕ, ◌+◌, String, Bool, not, ◌==◌, ◌!=◌, Option, none, some, List, [], ◌∷◌, ◌++◌, map, keep, when,
  length, eqb, is_none, is_nil, contains, sorted, distinct, if◌then◌else◌,
}
use dotmac_observability.Finding.{Finding, Code}
use dotmac_observability.Model.{
  PrivateInventory, TargetBinding, FederationBinding, ReceiverBinding, SecretFile,
}

-- `previous` and `following` are two versions of one document.
unfoldable pub supersede_findings : PrivateInventory → PrivateInventory → String → List Finding
supersede_findings previous following expect_previous_digest =
    when (previous.digest != expect_previous_digest)
      (record { code = Code.supersede_previous_digest; location = previous.document } ∷ [])
    ++ when (following.document != previous.document)
        (record { code = Code.supersede_document; location = following.document } ∷ [])
    ++ when (following.environment != previous.environment)
        (record { code = Code.supersede_environment; location = following.document } ∷ [])
    ++ when (not (eqb following.version (previous.version + 1)))
        (record { code = Code.supersede_version; location = following.document } ∷ [])
    ++ when (following.content_digest == previous.content_digest)
        (record { code = Code.supersede_no_change; location = following.document } ∷ [])

-- The names of one group of bindings, as a set.
unfoldable pub target_names : PrivateInventory → List String
target_names i = distinct [] (map (λ (b : TargetBinding). b.target_id) i.targets)

unfoldable pub federation_names : PrivateInventory → List String
federation_names i = distinct [] (map (λ (b : FederationBinding). b.target_id) i.federations)

unfoldable pub receiver_refs : PrivateInventory → List String
receiver_refs i = distinct [] (map (λ (b : ReceiverBinding). b.credential_ref) i.receivers)

-- `sorted(after - before)`.
unfoldable pub minus : List String → List String → List String
minus after before = sorted (keep (λ n. not (contains n before)) after)

unfoldable pub bound_count : List (Option SecretFile) → ℕ
bound_count credentials = length (keep (λ c. not (is_none c)) credentials)

-- A receiver's binding always has a credential.
unfoldable pub credential_count : PrivateInventory → ℕ
credential_count i = bound_count (
    map (λ (b : TargetBinding). b.credential) i.targets
    ++ map (λ (b : FederationBinding). b.credential) i.federations
    ++ map (λ (b : ReceiverBinding). some b.credential) i.receivers)

pub record SupersedeSummary : Type 0 where
  pub document : String
  pub previous_version : ℕ
  pub next_version : ℕ
  pub previous_digest : String
  pub next_digest : String
  pub targets_added : List String
  pub targets_removed : List String
  pub federations_added : List String
  pub federations_removed : List String
  pub receivers_added : List String
  pub receivers_removed : List String
  pub credentials_before : ℕ
  pub credentials_after : ℕ

unfoldable pub supersede_summary : PrivateInventory → PrivateInventory → SupersedeSummary
supersede_summary previous following = record {
  document = following.document;
  previous_version = previous.version;
  next_version = following.version;
  previous_digest = previous.digest;
  next_digest = following.digest;
  targets_added = minus (target_names following) (target_names previous);
  targets_removed = minus (target_names previous) (target_names following);
  federations_added = minus (federation_names following) (federation_names previous);
  federations_removed = minus (federation_names previous) (federation_names following);
  receivers_added = minus (receiver_refs following) (receiver_refs previous);
  receivers_removed = minus (receiver_refs previous) (receiver_refs following);
  credentials_before = credential_count previous;
  credentials_after = credential_count following;
}

-- A SupersessionRequest; its rationale and the plan of a migration are not read here.
pub record SupersessionRequest : Type 0 where
  pub kind : String
  pub document : String
  pub previous_version : ℕ
  pub previous_digest : String
  pub targets : List String
  pub federations : List String
  pub receivers : List String
