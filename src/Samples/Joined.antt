-- ===== src/Samples/Joined.antt =====
-- A private inventory that binds the sample's job, its resolution, and its succession.
use dotmac_observability.Prelude.{
  ◌≡◌, ◌↔◌, ◌⊎◌, refl, none, false, is_nil, [], ◌∷◌, from_pairs, lookup, insert, insert_all,
  sort_by, sorted, distinct, ◌+◌,
}
use dotmac_observability.Result.{ok, raised, inventory_error}
use dotmac_observability.Model.{PrivateInventory, Resolution}
use dotmac_observability.LiveVerify.Targets.{subscript}
use dotmac_observability.Resolve.Endpoints.{
  all_jobs, target_bindings, federation_bindings, job_location, authentication_findings,
  expectation_findings, resolved_findings, binding_findings, job_resolution, used_targets,
  jobs_by_target, datasource_endpoints, datasource_findings, federation_findings, used_federations,
  unused_findings,
}
use dotmac_observability.Resolve.Receivers.{
  receiver_bindings, receiver_findings, all_integrations, used_receivers,
}
use dotmac_observability.Resolve.SourceSets.{
  set_bindings, declared_sets, allowed_names, used_sets, set_findings,
}
use dotmac_observability.Resolve.Findings.{
  plane_findings, endpoint_findings, stale_findings, exposure_findings, resolution_findings,
}
use dotmac_observability.Resolve.Join.{
  resolve_one, resolve_jobs, resolve_datasources, resolve_federations, resolve_integrations,
  resolve_lookups, resolve,
}
use dotmac_observability.Resolve.Total.{Covers, resolve-Covers}
use dotmac_observability.Supersede.{supersede_findings, SupersessionRequest}
use dotmac_observability.Supersede.Succession.{
  Succeeds, supersede_findings-Succeeds, History.begins, History.goes_on, History-version,
}
use dotmac_observability.Supersede.Retire.{
  Document, number, rows, other, group_rows, row_names, name_of, retained, absent_findings, retire,
  request_findings, next_version, retire_all, settled, apply_supersession,
}
use dotmac_observability.Supersede.Retire.Kept.{Retired, apply_supersession-Retired}
use dotmac_observability.Samples.Desired.{desired, inventory, resolution}

abbrev pub bound_inventory : PrivateInventory
bound_inventory = record inventory {
  targets =
      record {
        target_id = "api-1";
        endpoints = "10.0.0.1:9100" ∷ "10.0.0.2:9100" ∷ [];
        credential = none;
      }
      ∷ [];
}

abbrev pub bound_resolution : Resolution
bound_resolution = record resolution { inventory = bound_inventory }

pub desired-resolved : resolve desired bound_inventory ≡ ok bound_resolution
unfolding from_pairs lookup insert insert_all sort_by sorted distinct subscript all_jobs
    target_bindings federation_bindings job_location authentication_findings expectation_findings
    resolved_findings binding_findings job_resolution used_targets jobs_by_target
    datasource_endpoints datasource_findings federation_findings used_federations unused_findings
    receiver_bindings receiver_findings all_integrations used_receivers set_bindings declared_sets
    allowed_names used_sets set_findings plane_findings endpoint_findings stale_findings
    exposure_findings resolution_findings resolve_one resolve_jobs resolve_datasources
    resolve_federations resolve_integrations resolve_lookups resolve
desired-resolved = refl

resolve-Covers_example :
    ((resolution_findings desired bound_inventory ≡ [])
      × ((r : Resolution) × (resolve desired bound_inventory ≡ ok r)
          × Covers desired bound_inventory r))
    ⊎ ((is_nil (resolution_findings desired bound_inventory) ≡ false)
        × (resolve desired bound_inventory
            ≡ raised (inventory_error (resolution_findings desired bound_inventory))))
resolve-Covers_example = resolve-Covers desired bound_inventory tt

-- The next version, in which the target is no longer bound.
abbrev next_inventory : PrivateInventory
next_inventory = record inventory { version = 4; content_digest = "sha256:4"; digest = "sha256:5" }

supersede_findings-Succeeds_example :
    (supersede_findings bound_inventory next_inventory "sha256:2" ≡ [])
    ↔ Succeeds bound_inventory next_inventory "sha256:2"
supersede_findings-Succeeds_example =
    supersede_findings-Succeeds bound_inventory next_inventory "sha256:2"

next_inventory-clean : supersede_findings bound_inventory next_inventory "sha256:2" ≡ []
unfolding supersede_findings
next_inventory-clean = refl

History-version_example :
    (next_inventory.version ≡ bound_inventory.version + 1)
    × (next_inventory.document ≡ bound_inventory.document)
    × (next_inventory.environment ≡ bound_inventory.environment)
History-version_example =
    History-version bound_inventory (goes_on next_inventory "sha256:2" begins next_inventory-clean)

abbrev retirement : SupersessionRequest
retirement = record {
  kind = "retire";
  document = "inventory";
  previous_version = 3;
  previous_digest = "sha256:2";
  targets = "api-1" ∷ [];
  federations = [];
  receivers = [];
}

abbrev stored : Document
stored =
    ("schema", other "1")
    ∷ ("version", number 3)
    ∷ ("targets", rows ((("target_id", "api-1") ∷ []) ∷ (("target_id", "api-2") ∷ []) ∷ []))
    ∷ []

abbrev following : Document
following =
    ("schema", other "1")
    ∷ ("targets", rows ((("target_id", "api-2") ∷ []) ∷ []))
    ∷ ("version", number 4)
    ∷ ("federations", rows [])
    ∷ ("receivers", rows [])
    ∷ []

retirement-applied : apply_supersession retirement bound_inventory stored ≡ ok (following, [])
unfolding group_rows row_names name_of retained absent_findings retire request_findings next_version
    retire_all settled apply_supersession lookup insert subscript
retirement-applied = refl

apply_supersession-Retired_example : Retired retirement bound_inventory stored following
apply_supersession-Retired_example =
    apply_supersession-Retired retirement bound_inventory stored following retirement-applied
