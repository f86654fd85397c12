-- ===== src/Resolve/Filled.antt =====
-- What a loop that assigns one entry of a dictionary per item leaves: of two items with the same
-- key, the later one's entry.
use mathlib.Core.Path.{subst}
use dotmac_observability.Prelude.{
  String, true, ◌==◌, ◌≡◌, refl, ◌∙◌, Option, none, some, Option-cases, inl, inr, List, [], ◌∷◌,
  eq_iff, Bool-cases, All, Dict, lookup, has_key, insert, lookup-insert, if◌then◌else◌,
}

-- The last item with the key.
unfoldable pub last_with {ℓ} : {A : Type ℓ} → (A → String) → String → List A → Option A
last_with key k [] = none
last_with key k (x ∷ xs) = elim (last_with key k xs) [
  | some y ↦ some y
  | none ↦ if key x == k then some x else none
]

-- An entry that an item with its key fills, and one that no item has touched.
abbrev pub Entry : {A V : Type 0} → (A → V → Type 0) → Option A → Option V → Option V → Type 0
Entry {V = V} R none before after = after ≡ before
Entry {V = V} R (some y) before after = (v : V) × (after ≡ some v) × R y v

-- Every entry of the dictionary, the keys of no item included.
abbrev pub Filled :
    {A V : Type 0} → (A → String) → (A → V → Type 0) → List A → Dict V → Dict V → Type 0
Filled key R xs found d = (k : String) → Entry R (last_with key k xs) (lookup k found) (lookup k d)

module _ {A V : Type 0} (key : A → String) (R : A → V → Type 0) where
  Entry-cons :
      (x : A) (v : V) (k : String) (found : Dict V) (o : Option A) (after : Option V)
      → R x v
      → Entry R o (lookup k (insert (key x) v found)) after
      → Entry R
          (elim o [ some y ↦ some y | none ↦ if key x == k then some x else none ])
          (lookup k found)
          after
  Entry-cons x v k found (some y) after r h = h
  Entry-cons x v k found none after r h = elim (Bool-cases (key x == k)) [
    | inl same ↦ rw same (v, h ∙ lookup-insert (key x) k v found ∙ rw same refl, r)
    | inr other ↦ rw other (h ∙ lookup-insert (key x) k v found ∙ rw other refl)
  ]

  pub Filled-nil : (found : Dict V) → Filled key R [] found found
  unfolding last_with
  Filled-nil found k = refl

  -- One more item in front.
  pub Filled-cons :
      (x : A) (v : V) (xs : List A) (found d : Dict V)
      → R x v
      → Filled key R xs (insert (key x) v found) d
      → Filled key R (x ∷ xs) found d
  unfolding last_with
  Filled-cons x v xs found d r h k =
      Entry-cons x v k found (last_with key k xs) (lookup k d) r (h k)

  last_with-cons :
      (x : A) (xs : List A) (k : String)
      → ((y : A) × (last_with key k xs ≡ some y))
      → (y : A) × (last_with key k (x ∷ xs) ≡ some y)
  unfolding last_with
  last_with-cons x xs k (y, e) = (y, rw (e, last_with) refl)

  last_with_head : (x : A) (xs : List A) → (y : A) × (last_with key (key x) (x ∷ xs) ≡ some y)
  unfolding last_with
  last_with_head x xs = elim (Option-cases (last_with key (key x) xs)) [
    | inr (y, e) ↦ (y, rw (e, last_with) refl)
    | inl e ↦ (x, rw (e, (eq_iff (key x) (key x)).1 refl, last_with) refl)
  ]

  Entry-has_key :
      (k : String) (xs : List A) (d : Dict V)
      → Filled key R xs [] d
      → ((y : A) × (last_with key k xs ≡ some y))
      → has_key k d ≡ true
  unfolding lookup
  Entry-has_key k xs d h (y, e) =
      let (v, p, _) = subst (λ o. Entry R o none (lookup k d)) e (h k) in rw (p, has_key) refl

  keys_of :
      (all xs : List A) (d : Dict V)
      → Filled key R all [] d
      → ((k : String)
          → ((y : A) × (last_with key k xs ≡ some y))
          → (y : A) × (last_with key k all ≡ some y))
      → All (λ x. has_key (key x) d ≡ true) xs
  keys_of all [] d h sub = tt
  keys_of all (x ∷ xs) d h sub = (
    Entry-has_key (key x) all d h (sub (key x) (last_with_head x xs)),
    keys_of all xs d h (λ k m. sub k (last_with-cons x xs k m)),
  )

  -- Every item's key is in the dictionary.
  pub Filled-has_key :
      (xs : List A) (d : Dict V) → Filled key R xs [] d → All (λ x. has_key (key x) d ≡ true) xs
  Filled-has_key xs d h = keys_of xs xs d h (λ k m. m)
