-- ===== src/Attribution/Project.antt =====
-- `project_envelope`: the public envelope, built from a private observation and walked against the
-- vault, and `verify_request`.
use dotmac_observability.Prelude.{
  ℕ, ℤ, pos, String, Bool, true, false, not, ◌&&◌, ◌||◌, ◌==◌, none, some, List, [], ◌∷◌, ◌++◌, map,
  keep, length, contains, if◌then◌else◌, Dict, lookup,
}
use dotmac_observability.Result.{Result, ok, raised, value_error, unclassified_field, ◌>>=◌}
use dotmac_observability.LiveVerify.Targets.{subscript}
use dotmac_observability.Yaml.Emit.{lstrip}
use dotmac_observability.Attribution.{
  Verdict, scanned, absent, unknown, declared_families, FamilyScan, verdict_of, Payload, Members,
  Elements, text, int, object, array, no_member, member, no_element, element,
}
use dotmac_observability.Attribution.Vault.{assert_clean}

abbrev pub schema_version : String
schema_version = "observability-consumer-attribution-envelope.v1"

abbrev pub envelope_fields : List String
envelope_fields =
    "schema_version" ∷ "target_id" ∷ "observation_digest" ∷ "collector_artifact_digest"
    ∷ "authorization_digest" ∷ "challenge_digest" ∷ "authority_ref" ∷ "host_identity_digest"
    ∷ "observed_at" ∷ "coverage" ∷ "counts" ∷ []

-- CLASSIFIED_FIELDS: the names that are public, and those that are private.
abbrev pub public_fields : List String
public_fields =
    "target_id" ∷ "observation_digest" ∷ "collector_artifact_digest" ∷ "authorization_digest"
    ∷ "challenge_digest" ∷ "authority_ref" ∷ "host_identity_digest" ∷ "observed_at"
    ∷ "consumers_attributed" ∷ "consumers_unattributed" ∷ []

abbrev pub private_fields : List String
private_fields =
    "db_host" ∷ "db_port" ∷ "db_user" ∷ "db_name" ∷ "dsn" ∷ "password" ∷ "launch_path"
    ∷ "secret_pointers" ∷ "env_var_names" ∷ "environment_file" ∷ "container_id" ∷ "unit_path" ∷ []

-- `set(names) <= set(known)`
abbrev pub all_known : List String → List String → Bool
all_known known [] = true
all_known known (n ∷ names) = contains n known && all_known known names

abbrev pub same_set : List String → List String → Bool
same_set xs ys = all_known ys xs && all_known xs ys

abbrev pub keys {ℓ} : {V : Type ℓ} → Dict V → List String
keys d = map (λ kv. kv.0) d

-- `_count`
unfoldable pub count : Dict Payload → String → Result ℤ
count observed name = elim (lookup name observed) [
  | none ↦ ok (pos 0)
  | some v ↦ elim v [ int n ↦ ok n | _ ↦ raised value_error ]
]

-- `not value or not value.strip()`
is_blank : String → Bool
unfolding lstrip
is_blank value = lstrip value == ""

pub record Recorded : Type 0 where
  pub authorization_digest : String
  pub challenge_digest : String
  pub authority_ref : String

unfoldable pub verify_request : String → String → String → Result Recorded
unfolding is_blank
verify_request authorization challenge authority =
    if is_blank authorization || is_blank challenge || is_blank authority
    then raised value_error
    else ok (record {
      authorization_digest = authorization;
      challenge_digest = challenge;
      authority_ref = authority;
    })

pub record Coverage : Type 0 where
  pub family : String
  pub verdict : Verdict
  pub found : ℕ
  pub error_count : ℕ

-- The envelope, whose other entries are constants.
pub record Envelope : Type 0 where
  pub target_id : Payload
  pub observation_digest : Payload
  pub collector_artifact_digest : Payload
  pub host_identity_digest : Payload
  pub observed_at : Payload
  pub coverage : List Coverage
  pub families_scanned : ℕ
  pub families_absent : ℕ
  pub families_unknown : ℕ
  pub consumers_attributed : ℤ
  pub consumers_unattributed : ℤ
  pub recorded : Recorded

unfoldable pub coverage_rows : Dict FamilyScan → List String → Result (List Coverage)
unfolding verdict_of
coverage_rows scans [] = ok []
coverage_rows scans (name ∷ names) = do
  scan ← subscript scans name
  rest ← coverage_rows scans names
  ok (
      record {
        family = name;
        verdict = verdict_of scan;
        found = scan.found;
        error_count = length scan.errors;
      }
      ∷ rest)

abbrev pub same_verdict : Verdict → Verdict → Bool
same_verdict scanned scanned = true
same_verdict absent absent = true
same_verdict unknown unknown = true
same_verdict _ _ = false

-- `sum(1 for scan in scans.values() if scan.verdict() is v)`
unfoldable pub how_many : Verdict → Dict FamilyScan → ℕ
how_many v scans = length (keep (λ kv. same_verdict (verdict_of kv.1) v) scans)

abbrev pub verdict_value : Verdict → String
verdict_value scanned = "SCANNED"
verdict_value absent = "ABSENT"
verdict_value unknown = "UNKNOWN"

unfoldable pub coverage_payload : List Coverage → Elements
coverage_payload [] = no_element
coverage_payload (row ∷ rows) =
    element
      (object (
        member "family" (text row.family) (
          member "verdict" (text (verdict_value row.verdict)) (
            member "found" (int (pos row.found))
              (member "error_count" (int (pos row.error_count)) no_member)))))
      (coverage_payload rows)

unfoldable pub counts_payload : Envelope → Members
counts_payload e = member "families_declared" (int (pos (length declared_families))) (
    member "families_scanned" (int (pos e.families_scanned)) (
      member "families_absent" (int (pos e.families_absent)) (
        member "families_unknown" (int (pos e.families_unknown)) (
          member "consumers_attributed" (int e.consumers_attributed)
            (member "consumers_unattributed" (int e.consumers_unattributed) no_member)))))

-- The dictionary, in the order of its entries.
unfoldable pub envelope_payload : Envelope → Members
unfolding coverage_payload counts_payload
envelope_payload e = member "schema_version" (text schema_version) (
    member "target_id" e.target_id (
      member "observation_digest" e.observation_digest (
        member "collector_artifact_digest" e.collector_artifact_digest (
          member "host_identity_digest" e.host_identity_digest (
            member "observed_at" e.observed_at (
              member "coverage" (array (coverage_payload e.coverage)) (
                member "counts" (object (counts_payload e)) (
                  member "authorization_digest" (text e.recorded.authorization_digest) (
                    member "challenge_digest" (text e.recorded.challenge_digest)
                      (member "authority_ref" (text e.recorded.authority_ref) no_member))))))))))

unfoldable pub member_names : Members → List String
member_names no_member = []
member_names (member k v rest) = k ∷ member_names rest

-- The check of the built names, and the walk.
unfoldable pub checked : List String → Envelope → Result Envelope
unfolding envelope_payload member_names
checked vault e =
    if not (same_set (member_names (envelope_payload e)) envelope_fields)
    then raised value_error
    else do clean ← assert_clean vault (object (envelope_payload e)); ok e

-- What is built once the names of the inputs are known; `str` is Python's, of what is no text.
module _ (str : Payload → String) where
  unfoldable pub str_of : Payload → String
  str_of (text s) = s
  str_of v = str v

  unfoldable pub build : Dict Payload → Dict FamilyScan → Result Envelope
  unfolding coverage_rows how_many count verify_request str_of
  build observed scans = do
    target_id ← subscript observed "target_id"
    observation_digest ← subscript observed "observation_digest"
    collector ← subscript observed "collector_artifact_digest"
    host ← subscript observed "host_identity_digest"
    observed_at ← subscript observed "observed_at"
    coverage ← coverage_rows scans declared_families
    attributed ← count observed "consumers_attributed"
    unattributed ← count observed "consumers_unattributed"
    authorization ← subscript observed "authorization_digest"
    challenge ← subscript observed "challenge_digest"
    authority ← subscript observed "authority_ref"
    recorded ← verify_request (str_of authorization) (str_of challenge) (str_of authority)
    ok (record {
      target_id = target_id;
      observation_digest = observation_digest;
      collector_artifact_digest = collector;
      host_identity_digest = host;
      observed_at = observed_at;
      coverage = coverage;
      families_scanned = how_many scanned scans;
      families_absent = how_many absent scans;
      families_unknown = how_many unknown scans;
      consumers_attributed = attributed;
      consumers_unattributed = unattributed;
      recorded = recorded;
    })

  unfoldable pub project_envelope : Dict Payload → Dict FamilyScan → List String → Result Envelope
  unfolding build checked
  project_envelope observed scans vault =
      if not (all_known (public_fields ++ private_fields) (keys observed))
      then raised unclassified_field
      else if not (same_set (keys scans) declared_families)
      then raised value_error
      else do e ← build observed scans; checked vault e
