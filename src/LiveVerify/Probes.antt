-- ===== src/LiveVerify/Probes.antt =====
-- Condition 5 of live_verify.py: both address families, each with a positive control.
mod Slots
pub mod Proved
use Prim.Native.String.{◌++◌ as ◌<>◌}
use dotmac_observability.Prelude.{
  String, Bool, true, false, not, ◌&&◌, ◌||◌, ◌==◌, ◌!=◌, Option, none, some, List, [], ◌∷◌, ◌++◌,
  map, flat_map, when, is_nil, is_none, if◌then◌else◌,
}
use dotmac_observability.Prelude.{sort_by}
use dotmac_observability.Finding.{Finding, Code}
use dotmac_observability.Model.{DesiredState, Surface}
use dotmac_observability.LiveVerify.Records.{LiveState, LiveProbe}
use dotmac_observability.LiveVerify.Derive.{
  families_of, chain_for, expectation_for, declared_probe_slots,
}

-- A surface and a family.
abbrev pub Slot : Type 0
Slot = String × String

unfoldable pub same_slot : Slot → Slot → Bool
same_slot (s, f) (t, g) = s == t && f == g

unfoldable pub where_of : Slot → String
where_of (s, f) = s <> "/" <> f

-- `seen[(probe.surface, probe.family)] = probe` over the probes, read at one slot: the last wins.
unfoldable pub last_probe : Slot → List LiveProbe → Option LiveProbe
unfolding same_slot
last_probe slot [] = none
last_probe slot (p ∷ ps) = elim (last_probe slot ps) [
  | some q ↦ some q
  | none ↦ if same_slot (p.surface, p.family) slot then some p else none
]

unfoldable pub has_slot : Slot → List Slot → Bool
unfolding same_slot
has_slot slot [] = false
has_slot slot (s ∷ ss) = same_slot s slot || has_slot slot ss

-- The keys of `seen`.
unfoldable pub distinct_slots : List Slot → List Slot
unfolding has_slot
distinct_slots [] = []
distinct_slots (s ∷ ss) = let rest = distinct_slots ss in if has_slot s ss then rest else s ∷ rest

-- `sorted` over pairs: a stable sort by the second text, then one by the first.
unfoldable pub sorted_slots : List Slot → List Slot
sorted_slots slots = sort_by (λ s. s.0) (sort_by (λ s. s.1) slots)

unfoldable pub outcome_findings : String → LiveProbe → List Finding
outcome_findings place probe =
    if probe.outcome == "inconclusive"
    then record { code = Code.probe_inconclusive; location = place } ∷ []
    else if probe.outcome != probe.expectation
    then (if probe.outcome == "reachable"
        then record { code = Code.probe_unexpected_reachable; location = place } ∷ []
        else record { code = Code.probe_unexpected_refused; location = place } ∷ [])
    else []

unfoldable pub one_probe_findings : Surface → String → LiveProbe → List Finding
one_probe_findings surface family probe =
    let place = where_of (surface.name, family) in
    when (probe.chain != chain_for surface family)
      (record { code = Code.probe_chain_inert; location = place } ∷ [])
    ++ when (probe.expectation != expectation_for surface)
        (record { code = Code.probe_expectation_wrong; location = place } ∷ [])
    ++ (if probe.control_outcome != "reachable"
        then record { code = Code.probe_control_failed; location = place } ∷ []
        else when (is_none probe.control_evidence_ref)
            (record { code = Code.probe_control_unproven; location = place } ∷ [])
          ++ outcome_findings place probe)

unfoldable pub slot_findings : List LiveProbe → Surface → String → List Finding
slot_findings probes surface family = elim (last_probe (surface.name, family) probes) [
  | none ↦
      record { code = Code.probe_family_missing; location = where_of (surface.name, family) } ∷ []
  | some probe ↦ one_probe_findings surface family probe
]

unfoldable pub surface_findings : List LiveProbe → Surface → List Finding
surface_findings probes surface = flat_map (slot_findings probes surface) (families_of surface)

unfoldable pub undeclared_slot : List Slot → Slot → List Finding
unfolding has_slot
undeclared_slot declared slot =
    when (not (has_slot slot declared))
      (record { code = Code.probe_undeclared_surface; location = where_of slot } ∷ [])

unfoldable pub probe_findings : DesiredState → LiveState → List Finding
probe_findings state live =
    let surfaces = state.bundle.exposure.surfaces in
    let slots = map (λ (p : LiveProbe). (p.surface, p.family)) live.probes in
    if not (is_nil surfaces) && is_nil live.probes
    then record { code = Code.probes_not_read; location = "live.probes" } ∷ []
    else flat_map (surface_findings live.probes) surfaces
      ++ flat_map (undeclared_slot (declared_probe_slots state))
          (sorted_slots (distinct_slots slots))
