-- ===== src/Prelude/Sort.antt =====
-- Python's `sorted` over texts, by code points (the order of the UTF-8 bytes), and `set`.
use Prim.Native.String.{String, compare}
use mathlib.Core.Path.{◌≡◌, refl, sym, subst}
use mathlib.Core.Logic.{◌↔◌, inl, inr}
use mathlib.Core.Bool.{Bool, true, false, ◌||◌}
use mathlib.Core.List.{List, [], ◌∷◌}
use native.Mathlib.Omega.{arith}
use text.Mathlib.Text.{is_le, ◌==◌}
use dotmac_observability.Prelude.Tests.{if◌then◌else◌, Bool-cases}
use text.Mathlib.TextEquality.{eq_iff}
use dotmac_observability.Prelude.Lists.{All}

-- A stable insertion sort by a text key.
module _ {ℓ} {A : Type ℓ} (key : A → String) where
  insert_by : A → List A → List A
  insert_by x [] = x ∷ []
  insert_by x (y ∷ ys) = if is_le (compare (key x) (key y)) then x ∷ y ∷ ys else y ∷ insert_by x ys

  unfoldable pub sort_by : List A → List A
  unfolding insert_by
  sort_by [] = []
  sort_by (x ∷ xs) = insert_by x (sort_by xs)

  module _ {κ} (P : A → Type κ) where
    All-insert_by : (x : A) (ys : List A) → All P (insert_by x ys) ↔ (P x × All P ys)
    unfolding insert_by
    All-insert_by x [] = (λ h. h, λ h. h)
    All-insert_by x (y ∷ ys) = elim (Bool-cases (is_le (compare (key x) (key y)))) [
      | inl before ↦ rw before (λ h. h, λ h. h)
      | inr after ↦
          let r = All-insert_by x ys in
          rw after (λ h. let q = r.0 h.1 in (q.0, (h.0, q.1)), λ h. (h.1.0, r.1 (h.0, h.1.1)))
    ]

    -- Sorting keeps what holds of every item.
    pub All-sort_by : (xs : List A) → All P (sort_by xs) ↔ All P xs
    unfolding sort_by
    All-sort_by [] = (λ h. h, λ h. h)
    All-sort_by (x ∷ xs) = (
      λ h. let r = (All-insert_by x (sort_by xs)).0 h in (r.0, (All-sort_by xs).0 r.1),
      λ h. (All-insert_by x (sort_by xs)).1 (h.0, (All-sort_by xs).1 h.1),
    )

-- `sorted(texts)`.
unfoldable pub sorted : List String → List String
unfolding sort_by
sorted = sort_by (λ s. s)

-- `x in xs`.
abbrev pub contains : String → List String → Bool
contains s [] = false
contains s (t ∷ ts) = t == s || contains s ts

-- The distinct items, each where it first stands.
unfoldable pub distinct : List String → List String → List String
distinct seen [] = []
distinct seen (s ∷ ss) =
    let rest = distinct (s ∷ seen) ss in
    let old = distinct seen ss in if contains s seen then old else s ∷ rest

pub All-sorted {κ} : (P : String → Type κ) (xs : List String) → All P (sorted xs) ↔ All P xs
unfolding sorted
All-sorted P xs = All-sort_by (λ s. s) P xs

-- Sorting makes no list empty.
pub sorted-eq-nil : (xs : List String) → (sorted xs ≡ []) ↔ (xs ≡ [])
sorted-eq-nil [] = (λ h. refl, λ h. unfold sorted sort_by in refl)
sorted-eq-nil (x ∷ xs) =
    (λ h. absurd ((All-sorted (λ _. ⊥) (x ∷ xs)).0 (subst (All (λ _. ⊥)) (sym h) tt)).0, λ h. cc)

module _ {ℓ} (P : String → Type ℓ) where
  pub at_text : (s : String) (ss : List String) → All P ss → contains s ss ≡ true → P s
  at_text s [] h e = absurd (cc)
  at_text s (t ∷ ss) h e = elim (Bool-cases (t == s)) [
    | inl same ↦ subst P ((eq_iff t s).0 same) h.0
    | inr other ↦ at_text s ss h.1 (ground arith)
  ]

  All-distinct_from : (seen xs : List String) → All P seen → All P (distinct seen xs) ↔ All P xs
  unfolding distinct
  All-distinct_from seen [] known = (λ h. h, λ h. h)
  All-distinct_from seen (s ∷ ss) known = elim (Bool-cases (contains s seen)) [
    | inl old ↦
        let r = All-distinct_from seen ss known in
        rw old (λ h. (at_text s seen known old, r.0 h), λ h. r.1 h.1)
    | inr new ↦ rw new (
      λ h. (h.0, (All-distinct_from (s ∷ seen) ss (h.0, known)).0 h.1),
      λ h. (h.0, (All-distinct_from (s ∷ seen) ss (h.0, known)).1 h.1),
    )
  ]

  -- The distinct items are the items.
  pub All-distinct : (xs : List String) → All P (distinct [] xs) ↔ All P xs
  All-distinct xs = All-distinct_from [] xs tt
