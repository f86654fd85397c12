-- ===== src/LiveVerify/Probes/Slots.antt =====
-- Sorting the distinct slots of the probes forgets none of them.
use dotmac_observability.Prelude.{
  ◌≡◌, ◌↔◌, true, List, [], ◌∷◌, arith, eq_iff, inl, inr, Bool-cases, All, All-sort_by,
}
use mathlib.Core.Path.{subst}
use dotmac_observability.LiveVerify.Probes.{Slot, same_slot, has_slot, distinct_slots, sorted_slots}

eq_of_same_slot : (s t : Slot) → same_slot s t ≡ true → s ≡ t
unfolding same_slot
eq_of_same_slot (s, f) (t, g) h = ground (arith, eq_iff s t, eq_iff f g)

module _ {ℓ} (P : Slot → Type ℓ) where
  at_slot : (s : Slot) (ss : List Slot) → All P ss → has_slot s ss ≡ true → P s
  unfolding has_slot
  at_slot s [] h e = absurd (cc)
  at_slot s (t ∷ ss) h e = elim (Bool-cases (same_slot t s)) [
    | inl same ↦ subst P (eq_of_same_slot t s same) h.0
    | inr other ↦ at_slot s ss h.1 (ground arith)
  ]

  All-distinct_slots : (ss : List Slot) → All P (distinct_slots ss) ↔ All P ss
  unfolding distinct_slots
  All-distinct_slots [] = (λ h. h, λ h. h)
  All-distinct_slots (s ∷ ss) =
      let r = All-distinct_slots ss in
      elim (Bool-cases (has_slot s ss)) [
        | inl old ↦ rw old (λ h. (at_slot s ss (r.0 h) old, r.0 h), λ h. r.1 h.1)
        | inr new ↦ rw new (λ h. (h.0, r.0 h.1), λ h. (h.0, r.1 h.1))
      ]

  pub All-sorted_slots : (ss : List Slot) → All P (sorted_slots (distinct_slots ss)) ↔ All P ss
  unfolding sorted_slots
  All-sorted_slots ss =
      let by_family = All-sort_by (λ (s : Slot). s.1) P (distinct_slots ss) in
      let by_name = All-sort_by (λ (s : Slot). s.0) P _ in
      let r = All-distinct_slots ss in
      (λ h. r.0 (by_family.0 (by_name.0 h)), λ h. by_name.1 (by_family.1 (r.1 h)))
