-- ===== src/Resolve/Endpoints.antt =====
-- The scrape jobs, the datasources and the federations, each against the binding that its target
-- identifier names.
use dotmac_observability.Prelude.{
  String, Bool, not, Option, none, some, List, [], ◌∷◌, ◌++◌, map, flat_map, keep, when, length,
  is_none, ltb, eqb, contains, sorted, if◌then◌else◌, Dict, lookup, from_pairs,
}
use Prim.Native.String.{◌++◌ as ◌<>◌}
use dotmac_observability.Finding.{Finding, Code}
use dotmac_observability.Model.{
  DesiredState, PrivateInventory, TargetBinding, FederationBinding, TargetSet, ScrapeJob,
  Federation, SecretFile, Publication, GrafanaDatasource,
}

-- `for target_set in state.targets: for job in target_set.jobs`.
unfoldable pub all_jobs : DesiredState → List ScrapeJob
all_jobs state = flat_map (λ (set : TargetSet). set.jobs) state.targets

-- `{binding.target_id: binding for binding in inventory.targets}`
unfoldable pub target_bindings : PrivateInventory → Dict TargetBinding
target_bindings inventory =
    from_pairs (map (λ (b : TargetBinding). (b.target_id, b)) inventory.targets)

unfoldable pub federation_bindings : PrivateInventory → Dict FederationBinding
federation_bindings inventory =
    from_pairs (map (λ (b : FederationBinding). (b.target_id, b)) inventory.federations)

unfoldable pub job_location : ScrapeJob → String
job_location job = "inventory/targets#" <> job.job

-- What a job or a federation declares, against the credential of its binding.
unfoldable pub authentication_findings : Bool → Option SecretFile → String → List Finding
authentication_findings authenticated credential location =
    when (if authenticated then is_none credential else not (is_none credential))
      (record { code = Code.authentication_mismatch; location = location } ∷ [])

unfoldable pub expectation_findings : ScrapeJob → List String → List Finding
expectation_findings job endpoints = elim job.expected [
  | none ↦ []
  | some n ↦
      when (ltb (length endpoints) n)
        (record { code = Code.target_unreachable_expectation; location = job_location job } ∷ [])
]

-- The end of the loop's body, with what the job resolves to.
unfoldable pub resolved_findings : ScrapeJob → List String → Option SecretFile → List Finding
resolved_findings job endpoints credential =
    authentication_findings job.authenticated credential (job_location job)
    ++ expectation_findings job endpoints

unfoldable pub binding_findings :
    ScrapeJob → Option Publication → Option TargetBinding → List Finding
binding_findings job none none =
    record { code = Code.resolution_missing; location = job_location job } ∷ []
binding_findings job none (some b) = resolved_findings job b.endpoints b.credential
binding_findings job (some p) none = resolved_findings job p.endpoints none
binding_findings job (some p) (some b) =
    (record { code = Code.publication_shadowed; location = job_location job } ∷ [])
    ++ resolved_findings job p.endpoints b.credential

-- One round of the loop over the jobs.
unfoldable pub job_resolution : Dict TargetBinding → ScrapeJob → List Finding
job_resolution targets job = binding_findings job job.publication (lookup job.target_id targets)

-- `used_targets`.
unfoldable pub used_targets : Dict TargetBinding → List ScrapeJob → List String
used_targets targets jobs =
    keep (λ t. not (is_none (lookup t targets))) (map (λ (job : ScrapeJob). job.target_id) jobs)

-- `{job.target_id: job for ...}`
unfoldable pub jobs_by_target : List ScrapeJob → Dict ScrapeJob
jobs_by_target jobs = from_pairs (map (λ (job : ScrapeJob). (job.target_id, job)) jobs)

-- What a datasource's URL is built from, or nothing.
unfoldable pub datasource_endpoints : Dict TargetBinding → ScrapeJob → List String
datasource_endpoints targets job = elim job.publication [
  | some p ↦ p.endpoints
  | none ↦ elim (lookup job.target_id targets) [ none ↦ [] | some b ↦ b.endpoints ]
]

-- One round of the loop over the datasources.
unfoldable pub datasource_findings :
    Dict TargetBinding → Dict ScrapeJob → GrafanaDatasource → List Finding
datasource_findings targets by_target source = elim source.target_id [
  | none ↦ []
  | some t ↦ elim (lookup t by_target) [
    | none ↦ []
    | some job ↦ when (not (eqb (length (datasource_endpoints targets job)) 1)) (
        record {
          code = Code.datasource_target_cardinality;
          location = "inventory/bundle.toml#grafana/" <> source.name;
        }
        ∷ [])
  ]
]

-- One round of the loop over the federations.
unfoldable pub federation_findings : Dict FederationBinding → Federation → List Finding
federation_findings federations f = elim (lookup f.target_id federations) [
  | none ↦
      record { code = Code.resolution_missing; location = "inventory/federations#" <> f.name } ∷ []
  | some b ↦
      authentication_findings f.source.authenticated b.credential
        ("inventory/federations#" <> f.name)
]

-- `used_federations`.
unfoldable pub used_federations : Dict FederationBinding → List Federation → List String
used_federations federations fs =
    keep (λ t. not (is_none (lookup t federations))) (map (λ (f : Federation). f.target_id) fs)

-- `sorted(set(bindings) - used)`, as findings.
unfoldable pub unused_findings {ℓ} : {V : Type ℓ} → String → Dict V → List String → List Finding
unused_findings prefix bindings used =
    map (λ k. record { code = Code.resolution_unused; location = prefix <> k })
      (sorted (keep (λ k. not (contains k used)) (map (λ kv. kv.0) bindings)))
