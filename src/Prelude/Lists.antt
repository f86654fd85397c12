-- ===== src/Prelude/Lists.antt =====
-- Lists measured by native numbers, loops that collect findings, and predicates on all items.
use Prim.Native.Nat.{ℕ, zero, suc}
use mathlib.Core.Path.{◌≡◌, refl, ap}
use mathlib.Core.Logic.{◌↔◌}
use mathlib.Core.Bool.{Bool, true, false, not, ◌&&◌}
use mathlib.Core.List.{List, [], ◌∷◌, ◌++◌, map}
use native.Mathlib.Omega.{arith}
use dotmac_observability.Prelude.Tests.{if◌then◌else◌}

module _ {ℓ} {A : Type ℓ} where
  abbrev pub length : List A → ℕ
  length [] = 0
  length (x ∷ xs) = suc (length xs)

  abbrev pub take : ℕ → List A → List A
  take zero xs = []
  take (suc n) [] = []
  take (suc n) (x ∷ xs) = x ∷ take n xs

  -- `not xs`: the truth value of a Python sequence, negated.
  abbrev pub is_nil : List A → Bool
  is_nil [] = true
  is_nil (x ∷ xs) = false

  pub is_nil-append : (x : A) (xs : List A) → is_nil (xs ++ (x ∷ [])) ≡ false
  is_nil-append x [] = refl
  is_nil-append x (y ∷ ys) = refl

  pub is_nil-append_and : (xs ys : List A) → is_nil (xs ++ ys) ≡ is_nil xs && is_nil ys
  is_nil-append_and [] ys = refl
  is_nil-append_and (x ∷ xs) ys = refl

  pub is_nil-eq-true : (xs : List A) → is_nil xs ≡ true → xs ≡ []
  is_nil-eq-true [] h = refl
  is_nil-eq-true (x ∷ xs) h = cc

  -- A comprehension's `if`.
  abbrev pub keep : (A → Bool) → List A → List A
  keep p [] = []
  keep p (x ∷ xs) = let rest = keep p xs in if p x then x ∷ rest else rest

  -- The list that is there exactly when the test holds.
  abbrev pub when : Bool → List A → List A
  when true xs = xs
  when false xs = []

  abbrev pub All {κ} : (A → Type κ) → List A → Type κ
  All P [] = Unit
  All P (x ∷ xs) = P x × All P xs

  pub All-append {κ} : (P : A → Type κ) (xs ys : List A) → All P (xs ++ ys) ↔ (All P xs × All P ys)
  All-append P [] ys = (λ h. (tt, h), λ h. h.1)
  All-append P (x ∷ xs) ys = (
    λ h. let r = (All-append P xs ys).0 h.1 in ((h.0, r.0), r.1),
    λ h. (h.0.0, (All-append P xs ys).1 (h.0.1, h.1)),
  )

  pub All-iff {κ κ'} :
      (P : A → Type κ) (Q : A → Type κ')
      → ((a : A) → P a ↔ Q a)
      → (xs : List A) → All P xs ↔ All Q xs
  All-iff P Q e [] = (λ h. tt, λ h. tt)
  All-iff P Q e (x ∷ xs) =
      (λ h. ((e x).0 h.0, (All-iff P Q e xs).0 h.1), λ h. ((e x).1 h.0, (All-iff P Q e xs).1 h.1))

  pub All-zip {κ κ'} :
      (P : A → Type κ) (Q : A → Type κ') (xs : List A)
      → (All P xs × All Q xs) ↔ All (λ x. P x × Q x) xs
  All-zip P Q [] = (λ h. tt, λ h. (tt, tt))
  All-zip P Q (x ∷ xs) =
      let r = All-zip P Q xs in
      (
        λ h. ((h.0.0, h.1.0), r.0 (h.0.1, h.1.1)),
        λ h. let q = r.1 h.1 in ((h.0.0, q.0), (h.0.1, q.1)),
      )

  pub append-eq-nil : (xs ys : List A) → (xs ++ ys ≡ []) ↔ ((xs ≡ []) × (ys ≡ []))
  append-eq-nil [] ys = (λ h. (refl, h), λ h. h.1)
  append-eq-nil (x ∷ xs) ys = (λ h. cc, λ h. cc h.0)

  pub when-eq-nil : (b : Bool) (x : A) (xs : List A) → (when b (x ∷ xs) ≡ []) ↔ (b ≡ false)
  when-eq-nil true x xs = (λ h. cc, λ h. cc)
  when-eq-nil false x xs = (λ h. refl, λ h. refl)

  pub keep-eq_self : (p : A → Bool) (xs : List A) → All (λ x. p x ≡ true) xs → keep p xs ≡ xs
  keep-eq_self p [] h = refl
  keep-eq_self p (x ∷ xs) h = rw h.0 (ap (λ r. x ∷ r) (keep-eq_self p xs h.1))

  pub keep-eq-nil : (p : A → Bool) (xs : List A) → (keep p xs ≡ []) ↔ All (λ x. p x ≡ false) xs
  keep-eq-nil p [] = (λ h. tt, λ h. refl)
  keep-eq-nil p (x ∷ xs) =
      (λ h. ground (arith, (keep-eq-nil p xs).0), λ h. ground (arith, (keep-eq-nil p xs).1 h.1))

-- One item where the list is not empty.
pub when-is_nil {ℓ κ} :
    {A : Type ℓ} {B : Type κ} (x : A) (bs : List B)
    → (when (not (is_nil bs)) (x ∷ []) ≡ []) ↔ (bs ≡ [])
when-is_nil x [] = (λ h. refl, λ h. refl)
when-is_nil x (b ∷ bs) = (λ h. cc, λ h. absurd (cc))

module _ {ℓ κ} {A : Type ℓ} {B : Type κ} where
  -- `for x in xs: findings.extend(f(x))`
  abbrev pub flat_map : (A → List B) → List A → List B
  flat_map f [] = []
  flat_map f (x ∷ xs) = f x ++ flat_map f xs

  pub flat_map-eq-nil :
      (f : A → List B) (xs : List A) → (flat_map f xs ≡ []) ↔ All (λ x. f x ≡ []) xs
  flat_map-eq-nil f [] = (λ h. tt, λ h. refl)
  flat_map-eq-nil f (x ∷ xs) = (
    λ h. let r = (append-eq-nil (f x) (flat_map f xs)).0 h in (r.0, (flat_map-eq-nil f xs).0 r.1),
    λ h. (append-eq-nil (f x) (flat_map f xs)).1 (h.0, (flat_map-eq-nil f xs).1 h.1),
  )

  pub All-map {κ'} :
      (P : B → Type κ') (f : A → B) (xs : List A) → All P (map f xs) ↔ All (λ x. P (f x)) xs
  All-map P f [] = (λ h. h, λ h. h)
  All-map P f (x ∷ xs) = let r = All-map P f xs in (λ h. (h.0, r.0 h.1), λ h. (h.0, r.1 h.1))
