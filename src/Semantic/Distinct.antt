-- ===== src/Semantic/Distinct.antt =====
-- What a loop that remembers the keys it has seen finds.
use dotmac_observability.Prelude.{
  String, false, ◌≡◌, refl, ◌↔◌, arith, eq_iff, List, [], ◌∷◌, map, when-eq-nil, append-eq-nil,
  contains, All,
}
use dotmac_observability.Finding.{Finding}
use dotmac_observability.Semantic.{seen_loop}

-- No text stands twice in the list.
abbrev pub Distinct : List String → Type 0
Distinct [] = Unit
Distinct (x ∷ xs) = (contains x xs ≡ false) × Distinct xs

-- None of the texts is in `seen`, nor twice among themselves.
abbrev pub Fresh : List String → List String → Type 0
Fresh seen [] = Unit
Fresh seen (x ∷ xs) = (contains x seen ≡ false) × Fresh (x ∷ seen) xs

abbrev Unseen : List String → List String → Type 0
Unseen seen xs = All (λ y. contains y seen ≡ false) xs

-- Unseen after one more text, which is then not among them.
Unseen-cons :
    (x : String) (seen xs : List String)
    → Unseen (x ∷ seen) xs ↔ ((contains x xs ≡ false) × Unseen seen xs)
Unseen-cons x seen [] = (λ h. (refl, tt), λ h. tt)
Unseen-cons x seen (y ∷ ys) =
    let r = Unseen-cons x seen ys in
    (
      λ h.
          let q = r.0 h.1 in
          (ground (arith, eq_iff x y, eq_iff y x, h.0, q.0), (ground (arith, h.0), q.1)),
      λ h. (ground (arith, eq_iff x y, eq_iff y x, h.0, h.1.0), r.1 (ground (arith, h.0), h.1.1)),
    )

Fresh-Unseen : (seen xs : List String) → Fresh seen xs ↔ (Unseen seen xs × Distinct xs)
Fresh-Unseen seen [] = (λ h. (tt, tt), λ h. tt)
Fresh-Unseen seen (x ∷ xs) =
    let r = Fresh-Unseen (x ∷ seen) xs in
    let c = Unseen-cons x seen xs in
    (
      λ h. let q = r.0 h.1 in let u = c.0 q.0 in ((h.0, u.1), (u.0, q.1)),
      λ h. (h.0.0, r.1 (c.1 (h.1.0, h.0.1), h.1.1)),
    )

Unseen-nil : (xs : List String) → Unseen [] xs
Unseen-nil [] = tt
Unseen-nil (x ∷ xs) = (refl, Unseen-nil xs)

pub Fresh-Distinct : (xs : List String) → Fresh [] xs ↔ Distinct xs
Fresh-Distinct xs =
    (λ h. ((Fresh-Unseen [] xs).0 h).1, λ h. (Fresh-Unseen [] xs).1 (Unseen-nil xs, h))

pub seen_loop-eq-nil {ℓ} :
    {A : Type ℓ} (key : A → String) (again : A → Finding) (more : A → List Finding)
    (seen : List String) (xs : List A)
    → (seen_loop key again more seen xs ≡ [])
      ↔ (Fresh seen (map key xs) × All (λ x. more x ≡ []) xs)
unfolding seen_loop
seen_loop-eq-nil key again more seen [] = (λ h. (tt, tt), λ h. refl)
seen_loop-eq-nil key again more seen (x ∷ xs) = (
  λ h.
      let (first, rest) = (append-eq-nil _ (seen_loop key again more (key x ∷ seen) xs)).0 h in
      let (old, others) = (append-eq-nil _ (more x)).0 first in
      let (fresh, all) = (seen_loop-eq-nil key again more (key x ∷ seen) xs).0 rest in
      (((when-eq-nil _ _ _).0 old, fresh), (others, all)),
  λ h. (append-eq-nil _ (seen_loop key again more (key x ∷ seen) xs)).1 (
    (append-eq-nil _ (more x)).1 ((when-eq-nil _ _ _).1 h.0.0, h.1.0),
    (seen_loop-eq-nil key again more (key x ∷ seen) xs).1 (h.0.1, h.1.1),
  ),
)
