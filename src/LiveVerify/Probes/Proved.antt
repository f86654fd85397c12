-- ===== src/LiveVerify/Probes/Proved.antt =====
-- When condition 5 finds nothing.
use dotmac_observability.Prelude.{
  String, ◌≡◌, refl, sym, ◌↔◌, ◌⊎◌, true, false, not, ◌&&◌, ◌==◌, some, List, [], ◌∷◌, arith,
  eq_iff, inl, inr, Bool-cases, Option-cases, is_none, is_nil, All, All-iff, flat_map, map,
  flat_map-eq-nil, append-eq-nil,
}
use mathlib.Core.Path.{subst}
use mathlib.Core.Option.{some-injective}
use dotmac_observability.Model.{DesiredState, Surface}
use dotmac_observability.LiveVerify.Records.{LiveState, LiveProbe}
use dotmac_observability.LiveVerify.Derive.{
  families_of, chain_for, expectation_for, declared_probe_slots,
}
use dotmac_observability.LiveVerify.Probes.Slots.{All-sorted_slots}
use dotmac_observability.LiveVerify.Probes.{
  Slot, last_probe, has_slot, where_of, outcome_findings, one_probe_findings, slot_findings,
  surface_findings, undeclared_slot, probe_findings,
}

-- The surface was probed in this family, where the packets go, with the outcome that its exposure
-- means, beside a positive control that worked and can be shown.
pub record ProbeHolds (s : Surface) (family : String) (p : LiveProbe) : Type 0 where
  pub chain : p.chain ≡ chain_for s family
  pub expectation : p.expectation ≡ expectation_for s
  pub outcome : p.outcome ≡ expectation_for s
  pub control : p.control_outcome ≡ "reachable"
  pub evidence : is_none p.control_evidence_ref ≡ false

abbrev pub SlotHolds : List LiveProbe → Surface → String → Type 0
SlotHolds probes s family =
    (p : LiveProbe) × (last_probe (s.name, family) probes ≡ some p) × ProbeHolds s family p

-- Each family of each declared surface is proven, and nothing else was probed.
pub record ProbesProven (state : DesiredState) (live : LiveState) : Type 0 where
  pub slots :
      All (λ s. All (SlotHolds live.probes s) (families_of s)) state.bundle.exposure.surfaces
  pub known :
      All
        (λ slot. has_slot slot (declared_probe_slots state) ≡ true)
        (map (λ (p : LiveProbe). (p.surface, p.family)) live.probes)

conclusive : (s : Surface) → expectation_for s == "inconclusive" ≡ false
unfolding expectation_for
conclusive s = elim (Bool-cases (s.exposure == "public")) [ inl e ↦ rw e | inr e ↦ rw e ]

outcome_findings-eq-nil :
    (s : Surface) (place : String) (p : LiveProbe)
    → p.expectation ≡ expectation_for s
    → (outcome_findings place p ≡ []) ↔ (p.outcome ≡ expectation_for s)
unfolding outcome_findings
outcome_findings-eq-nil s place p e = (
  λ h. ground (arith, eq_iff p.outcome p.expectation),
  λ h. ground (arith, conclusive s, eq_iff p.outcome p.expectation),
)

one_probe-eq-nil :
    (s : Surface) (family : String) (p : LiveProbe)
    → (one_probe_findings s family p ≡ []) ↔ ProbeHolds s family p
unfolding one_probe_findings
one_probe-eq-nil s family p = (
  λ h.
      let right : p.expectation ≡ expectation_for s =
        ground (arith, eq_iff p.expectation (expectation_for s)) in
      record {
        chain = ground (arith, eq_iff p.chain (chain_for s family));
        expectation = right;
        outcome = (outcome_findings-eq-nil s (where_of (s.name, family)) p right).0 (ground arith);
        control = ground (arith, eq_iff p.control_outcome "reachable");
        evidence = ground arith;
      },
  λ h. ground (
    arith,
    eq_iff p.chain (chain_for s family),
    eq_iff p.expectation (expectation_for s),
    eq_iff p.control_outcome "reachable",
    (outcome_findings-eq-nil s (where_of (s.name, family)) p h.expectation).1 h.outcome,
  ),
)

slot-eq-nil :
    (probes : List LiveProbe) (s : Surface) (family : String)
    → (slot_findings probes s family ≡ []) ↔ SlotHolds probes s family
unfolding slot_findings
slot-eq-nil probes s family = elim (Option-cases (last_probe (s.name, family) probes)) [
  | inl absent ↦ rw absent (λ h. absurd (cc), λ h. absurd (cc h.1))
  | inr (p, present) ↦
      let one = one_probe-eq-nil s family p in
      rw (present, slot_findings)
        (
          λ h. (p, refl, one.0 h),
          λ h.
              subst (λ q. one_probe_findings s family q ≡ []) (sym (some-injective p h.0 h.1))
                ((one_probe-eq-nil s family h.0).1 h.2),
        )
]

surface-eq-nil :
    (probes : List LiveProbe) (s : Surface)
    → (surface_findings probes s ≡ []) ↔ All (SlotHolds probes s) (families_of s)
unfolding surface_findings
surface-eq-nil probes s = (
  λ h. (All-iff _ _ (slot-eq-nil probes s) (families_of s)).0 ((flat_map-eq-nil _ _).0 h),
  λ h. (flat_map-eq-nil _ _).1 ((All-iff _ _ (slot-eq-nil probes s) (families_of s)).1 h),
)

surfaces-eq-nil :
    (probes : List LiveProbe) (surfaces : List Surface)
    → (flat_map (surface_findings probes) surfaces ≡ [])
      ↔ All (λ s. All (SlotHolds probes s) (families_of s)) surfaces
surfaces-eq-nil probes surfaces = (
  λ h. (All-iff _ _ (surface-eq-nil probes) surfaces).0 ((flat_map-eq-nil _ _).0 h),
  λ h. (flat_map-eq-nil _ _).1 ((All-iff _ _ (surface-eq-nil probes) surfaces).1 h),
)

undeclared-eq-nil :
    (declared : List Slot) (slot : Slot)
    → (undeclared_slot declared slot ≡ []) ↔ (has_slot slot declared ≡ true)
unfolding undeclared_slot
undeclared-eq-nil declared slot = ground arith

-- A surface has a family.
some_family :
    (P : String → Type 0) (s : Surface) → All P (families_of s) → (family : String) × P family
unfolding families_of
some_family P s h = elim (Bool-cases (s.family == "dual_stack")) [
  | inl dual ↦
      let both : All P ("ipv4" ∷ "ipv6" ∷ []) = rw (dual, families_of) at h in ("ipv4", both.0)
  | inr one ↦ let it : All P (s.family ∷ []) = rw (one, families_of) at h in (s.family, it.0)
]

-- Where no probe was read, a family of the first surface is missing.
probes_read :
    (probes : List LiveProbe) (surfaces : List Surface)
    → All (λ s. All (SlotHolds probes s) (families_of s)) surfaces
    → (is_nil surfaces ≡ true) ⊎ (is_nil probes ≡ false)
unfolding last_probe
probes_read probes [] h = inl refl
probes_read [] (s ∷ ss) h = let q = some_family _ s h.0 in absurd (cc q.1.1)
probes_read (p ∷ ps) (s ∷ ss) h = inr refl

unread_absurd :
    (probes : List LiveProbe) (surfaces : List Surface)
    → not (is_nil surfaces) && is_nil probes ≡ true
    → (is_nil surfaces ≡ true) ⊎ (is_nil probes ≡ false)
    → ⊥
unread_absurd probes surfaces h k = ground arith

-- Condition 5 finds nothing exactly when, for each family of each declared surface, the last probe
-- of that slot was in the chain that its traffic traverses, expected and observed what the
-- exposure means, and had a reachable control with evidence, and every probe is of a declared
-- slot.
pub probe_findings-eq-nil :
    (state : DesiredState) (live : LiveState)
    → (probe_findings state live ≡ []) ↔ ProbesProven state live
unfolding probe_findings
probe_findings-eq-nil state live =
    let surfaces = state.bundle.exposure.surfaces in
    let declared = declared_probe_slots state in
    let slots : List Slot = map (λ (p : LiveProbe). (p.surface, p.family)) live.probes in
    let sorted = All-sorted_slots (λ slot. undeclared_slot declared slot ≡ []) slots in
    let known = All-iff _ _ (undeclared-eq-nil declared) slots in
    let proven = surfaces-eq-nil live.probes surfaces in
    elim (Bool-cases (not (is_nil surfaces) && is_nil live.probes)) [
      | inl unread ↦ rw unread (
        λ h. absurd (cc),
        λ h. absurd (unread_absurd live.probes surfaces unread (probes_read _ _ h.slots)),
      )
      | inr listed ↦ rw listed (
        λ h.
            let r = (append-eq-nil _ _).0 h in
            record {
              slots = proven.0 r.0;
              known = known.0 (sorted.0 ((flat_map-eq-nil _ _).0 r.1));
            },
        λ h.
            (append-eq-nil _ _).1
              (proven.1 h.slots, (flat_map-eq-nil _ _).1 (sorted.1 (known.1 h.known))),
      )
    ]
