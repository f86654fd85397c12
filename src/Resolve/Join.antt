-- ===== src/Resolve/Join.antt =====
-- `resolve`: refused with every finding, or the lookups that the renderer relies on.
use Prim.Native.String.{◌++◌ as ◌<>◌}
use dotmac_observability.Prelude.{
  String, Option, none, some, List, [], ◌∷◌, is_nil, if◌then◌else◌, Dict, insert,
}
use dotmac_observability.Result.{Result, ok, raised, inventory_error, index_error, ◌>>=◌}
use dotmac_observability.Model.{
  DesiredState, PrivateInventory, Resolution, ResolvedEndpoint, ResolvedReceiver,
  ResolvedDatasource, ScrapeJob, TargetBinding, FederationBinding, ReceiverBinding,
  GrafanaDatasource, Federation, Integration, Publication,
}
use dotmac_observability.LiveVerify.Targets.{subscript}
use dotmac_observability.Resolve.Endpoints.{
  all_jobs, target_bindings, federation_bindings, jobs_by_target,
}
use dotmac_observability.Resolve.Receivers.{receiver_bindings, all_integrations}
use dotmac_observability.Resolve.SourceSets.{set_bindings}
use dotmac_observability.Resolve.Findings.{resolution_findings}

unfoldable pub resolve_one :
    Dict TargetBinding → ScrapeJob → Option Publication → Result ResolvedEndpoint
resolve_one targets job (some p) = ok (record { endpoints = p.endpoints; credential = none })
resolve_one targets job none = do
  b ← subscript targets job.target_id
  ok (record { endpoints = b.endpoints; credential = b.credential })

unfoldable pub resolve_jobs :
    Dict TargetBinding → List ScrapeJob → Dict ResolvedEndpoint → Result (Dict ResolvedEndpoint)
resolve_jobs targets [] jobs = ok jobs
resolve_jobs targets (job ∷ rest) jobs = do
  e ← resolve_one targets job job.publication
  resolve_jobs targets rest (insert job.job e jobs)

-- `endpoints[0]`.
unfoldable pub first_endpoint : List String → Result String
first_endpoint [] = raised index_error
first_endpoint (e ∷ es) = ok e

-- One round of the loop over the datasources that name a target.
unfoldable pub resolve_datasource :
    Dict TargetBinding → Dict ScrapeJob → String → Result ResolvedDatasource
resolve_datasource targets by_target t = do
  job ← subscript by_target t
  e ← resolve_one targets job job.publication
  endpoint ← first_endpoint e.endpoints
  ok (record { url = job.scheme <> "://" <> endpoint })

unfoldable pub resolve_datasources :
    Dict TargetBinding
    → Dict ScrapeJob
    → List GrafanaDatasource
    → Dict ResolvedDatasource
    → Result (Dict ResolvedDatasource)
resolve_datasources targets by_target [] found = ok found
resolve_datasources targets by_target (source ∷ rest) found = elim source.target_id [
  | none ↦ resolve_datasources targets by_target rest found
  | some t ↦ do
    d ← resolve_datasource targets by_target t
    resolve_datasources targets by_target rest (insert source.name d found)
]

unfoldable pub resolve_federations :
    Dict FederationBinding
    → List Federation
    → Dict ResolvedEndpoint
    → Result (Dict ResolvedEndpoint)
resolve_federations federations [] found = ok found
resolve_federations federations (f ∷ rest) found = do
  b ← subscript federations f.target_id
  resolve_federations federations rest
      (insert f.name (record { endpoints = b.endpoint ∷ []; credential = b.credential }) found)

unfoldable pub resolve_integrations :
    Dict ReceiverBinding → List Integration → Dict ResolvedReceiver → Result (Dict ResolvedReceiver)
resolve_integrations receivers [] found = ok found
resolve_integrations receivers (i ∷ rest) found = do
  b ← subscript receivers i.credential_ref
  resolve_integrations receivers rest (
      insert i.credential_ref (record { credential = b.credential; destination = b.destination })
        found)

-- The lookups, once nothing is found.
unfoldable pub resolve_lookups : DesiredState → PrivateInventory → Result Resolution
resolve_lookups state inventory = do
  jobs ← resolve_jobs (target_bindings inventory) (all_jobs state) []
  datasources ←
      resolve_datasources (target_bindings inventory) (jobs_by_target (all_jobs state))
        state.bundle.grafana.datasources []
  federations ← resolve_federations (federation_bindings inventory) state.federations []
  integrations ←
      resolve_integrations (receiver_bindings inventory) (all_integrations state.receivers) []
  ok (record {
    inventory = inventory;
    jobs = jobs;
    datasources = datasources;
    federations = federations;
    integrations = integrations;
    source_sets = set_bindings inventory;
  })

unfoldable pub resolve : DesiredState → PrivateInventory → Result Resolution
resolve state inventory =
    let findings = resolution_findings state inventory in
    if is_nil findings then resolve_lookups state inventory else raised (inventory_error findings)
