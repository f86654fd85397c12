-- ===== src/Resolve/SourceSets.antt =====
-- The source sets that surfaces allow from, each against its binding and the kind it declares.
use Prim.Native.String.{◌++◌ as ◌<>◌}
use dotmac_observability.Prelude.{
  String, not, ◌==◌, Option, none, some, List, [], ◌∷◌, ◌++◌, map, flat_map, when, is_none, is_nil,
  distinct, if◌then◌else◌, Dict, lookup, from_pairs,
}
use dotmac_observability.Finding.{Finding, Code}
use dotmac_observability.Model.{
  DesiredState, PrivateInventory, SourceSet, SourceSetBinding, Surface,
}

unfoldable pub set_bindings : PrivateInventory → Dict SourceSetBinding
set_bindings inventory =
    from_pairs (map (λ (b : SourceSetBinding). (b.name, b)) inventory.source_sets)

unfoldable pub declared_sets : DesiredState → Dict SourceSet
declared_sets state =
    from_pairs (map (λ (s : SourceSet). (s.name, s)) state.bundle.exposure.source_sets)

unfoldable pub allowed_names : List Surface → List String
allowed_names surfaces = flat_map (λ s. elim s.allow_from [ none ↦ [] | some n ↦ n ∷ [] ]) surfaces

-- `used_sets`.
unfoldable pub used_sets : DesiredState → List String
used_sets state = distinct [] (allowed_names state.bundle.exposure.surfaces)

-- What the declared kind asks of the binding.
unfoldable pub kind_findings : String → String → SourceSetBinding → List Finding
kind_findings location kind b =
    if kind == "tunnel_interface"
    then when (is_none b.interface)
        (record { code = Code.source_set_kind; location = location } ∷ [])
      ++ when (not (is_nil b.prefixes))
          (record { code = Code.source_set_kind; location = location } ∷ [])
    else if kind == "address_set"
    then when (is_nil b.prefixes) (record { code = Code.source_set_kind; location = location } ∷ [])
      ++ when (not (is_none b.interface))
          (record { code = Code.source_set_kind; location = location } ∷ [])
    else []

unfoldable pub bound_findings : String → SourceSet → Option SourceSetBinding → List Finding
bound_findings location set none =
    record { code = Code.resolution_unresolved; location = location } ∷ []
bound_findings location set (some b) = kind_findings location set.kind b

-- One round of the loop over the used names; an undeclared one is the public gate's to report.
unfoldable pub set_findings :
    String → Dict SourceSet → Dict SourceSetBinding → String → List Finding
set_findings document declared bindings name = elim (lookup name declared) [
  | none ↦ []
  | some set ↦ bound_findings (document <> "#source_sets/" <> name) set (lookup name bindings)
]
