-- ===== src/Resolve/Findings.antt =====
-- `resolution_findings`, part by part.
use Prim.Native.String.{◌++◌ as ◌<>◌}
use dotmac_observability.Prelude.{◌!=◌, List, [], ◌∷◌, ◌++◌, flat_map, when, sorted}
use dotmac_observability.Finding.{Finding, Code}
use dotmac_observability.Model.{DesiredState, PrivateInventory}
use dotmac_observability.Resolve.Endpoints.{
  all_jobs, target_bindings, federation_bindings, job_resolution, used_targets, jobs_by_target,
  datasource_findings, federation_findings, used_federations, unused_findings,
}
use dotmac_observability.Resolve.Receivers.{
  receiver_bindings, receiver_findings, all_integrations, used_receivers,
}
use dotmac_observability.Resolve.SourceSets.{set_bindings, declared_sets, used_sets, set_findings}

unfoldable pub plane_findings : DesiredState → PrivateInventory → List Finding
plane_findings state inventory =
    when (inventory.environment != state.control_plane.environment)
      (record { code = Code.resolution_environment; location = inventory.document } ∷ [])
    ++ when (inventory.host.target_id != state.control_plane.host.target_id)
        (record { code = Code.resolution_host; location = inventory.document } ∷ [])

unfoldable pub endpoint_findings : DesiredState → PrivateInventory → List Finding
endpoint_findings state inventory =
    flat_map (job_resolution (target_bindings inventory)) (all_jobs state)
    ++ flat_map (datasource_findings (target_bindings inventory) (jobs_by_target (all_jobs state)))
        state.bundle.grafana.datasources
    ++ flat_map (federation_findings (federation_bindings inventory)) state.federations

unfoldable pub stale_findings : DesiredState → PrivateInventory → List Finding
stale_findings state inventory =
    let targets = target_bindings inventory in
    let federations = federation_bindings inventory in
    let receivers = receiver_bindings inventory in
    unused_findings (inventory.document <> "#targets/") targets
      (used_targets targets (all_jobs state))
    ++ unused_findings (inventory.document <> "#federations/") federations
        (used_federations federations state.federations)
    ++ unused_findings (inventory.document <> "#receivers/") receivers
        (used_receivers receivers (all_integrations state.receivers))

unfoldable pub exposure_findings : DesiredState → PrivateInventory → List Finding
exposure_findings state inventory =
    flat_map (set_findings inventory.document (declared_sets state) (set_bindings inventory))
      (sorted (used_sets state))
    ++ unused_findings (inventory.document <> "#source_sets/") (set_bindings inventory)
        (used_sets state)

unfoldable pub resolution_findings : DesiredState → PrivateInventory → List Finding
resolution_findings state inventory =
    plane_findings state inventory
    ++ endpoint_findings state inventory
    ++ flat_map (receiver_findings (receiver_bindings inventory)) state.receivers
    ++ stale_findings state inventory
    ++ exposure_findings state inventory
