-- ===== src/Samples/Checked.antt =====
-- The public semantic findings on the sample control plane.
use dotmac_observability.Prelude.{◌≡◌, ◌↔◌, refl, []}
use dotmac_observability.Semantic.{
  inventory_target_findings, control_plane_findings, listen_findings, address_of,
}
use dotmac_observability.Semantic.Named.{Named, inventory_target_findings-Named}
use dotmac_observability.Semantic.Routing.{routing_findings}
use dotmac_observability.Semantic.Routed.{Routed, routing_findings-Routed}
use dotmac_observability.Prelude.{String, none, ◌∷◌, ◌≢◌, ◌+◌, All}
use dotmac_observability.Model.{DesiredState, RetiredProduct}
use dotmac_observability.Semantic.Decommissioned.{
  retirement_findings, Unmentioned, retirement_findings-eq-nil,
}
use dotmac_observability.Supersede.Migration.{
  CaptureInventory, migration_findings, migration_findings-eq-nil,
}
use dotmac_observability.Samples.Desired.{desired, bundle, inventory}
use dotmac_observability.Samples.Running.{tree}

inventory_target_findings-Named_example : (inventory_target_findings desired ≡ []) ↔ Named desired
inventory_target_findings-Named_example = inventory_target_findings-Named desired

routing_findings-Routed_example : (routing_findings desired ≡ []) ↔ Routed desired
routing_findings-Routed_example = routing_findings-Routed desired

loopback : control_plane_findings desired ≡ []
unfolding control_plane_findings listen_findings address_of
loopback = refl

abbrev capture : CaptureInventory
capture = record { version = 2; environment = "production"; digest = "sha256:1" }

migration_findings_example : (migration_findings capture inventory "sha256:1" ≡ []) ↔ (
    (capture.digest ≡ "sha256:1")
    × (inventory.version ≡ capture.version + 1)
    × (inventory.environment ≡ capture.environment)
    × (inventory.digest ≢ capture.digest))
migration_findings_example = migration_findings-eq-nil capture inventory "sha256:1"

-- A state in which one product is retired, by two spellings.
abbrev retired : DesiredState
retired = record desired {
  bundle = record bundle {
    retired =
        record {
          name = "crm";
          tokens = "crm" ∷ "customer-desk" ∷ [];
          decommissioned = "2025-12-01";
          rationale = "replaced";
          residual_data = none;
        }
        ∷ [];
  };
}

abbrev lower : String → String
lower s = s

retirement_findings_example :
    (retirement_findings lower retired tree ≡ [])
    ↔ All
        (λ (product : RetiredProduct).
          All (λ token. All (Unmentioned lower token) tree) product.tokens)
        retired.bundle.retired
retirement_findings_example = retirement_findings-eq-nil lower retired tree
