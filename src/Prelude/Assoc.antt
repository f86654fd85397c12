-- ===== src/Prelude/Assoc.antt =====
-- Python's `dict` with text keys, in insertion order: an assignment to a key that is there keeps
-- its place.
use Prim.Native.String.{String}
use mathlib.Core.Path.{◌≡◌, refl, sym, ◌∙◌, subst}
use mathlib.Core.Logic.{◌↔◌, inl, inr}
use mathlib.Core.Bool.{Bool, true, false}
use mathlib.Core.Option.{Option, none, some}
use mathlib.Core.List.{List, [], ◌∷◌}
use native.Mathlib.Omega.{arith}
use text.Mathlib.Text.{◌==◌}
use text.Mathlib.TextEquality.{eq_iff}
use dotmac_observability.Prelude.Tests.{if◌then◌else◌, Bool-cases, Option-cases}
use dotmac_observability.Prelude.Lists.{All}

abbrev pub Dict {ℓ} : Type ℓ → Type ℓ
Dict V = List (String × V)

module _ {ℓ} {V : Type ℓ} where
  -- `d.get(k)`
  unfoldable pub lookup : String → Dict V → Option V
  lookup k [] = none
  lookup k ((j, v) ∷ d) = if j == k then some v else lookup k d

  -- `k in d`
  abbrev pub has_key : String → Dict V → Bool
  has_key k d = elim (lookup k d) [ none ↦ false | some v ↦ true ]

  -- `d[k] = v`
  unfoldable pub insert : String → V → Dict V → Dict V
  insert k v [] = (k, v) ∷ []
  insert k v ((j, w) ∷ d) = if j == k then (j, v) ∷ d else (j, w) ∷ insert k v d

  -- `for k, v in pairs: d[k] = v`
  unfoldable pub insert_all : List (String × V) → Dict V → Dict V
  insert_all [] d = d
  insert_all ((k, v) ∷ pairs) d = insert_all pairs (insert k v d)

  -- `{k: v for k, v in pairs}`
  unfoldable pub from_pairs : List (String × V) → Dict V
  unfolding insert insert_all
  from_pairs pairs = insert_all pairs []

  -- No key stands twice.
  abbrev pub NodupKeys : Dict V → Type ℓ
  NodupKeys [] = Unit
  NodupKeys ((k, v) ∷ d) = (lookup k d ≡ none) × NodupKeys d

  pub lookup-insert :
      (k j : String) (v : V) (d : Dict V)
      → lookup j (insert k v d) ≡ (if k == j then some v else lookup j d)
  unfolding lookup insert
  lookup-insert k j v [] = refl
  lookup-insert k j v ((i, w) ∷ d) =
      ground (arith, eq_iff k j, eq_iff i k, eq_iff i j, lookup-insert k j v d)

  pub insert-NodupKeys : (k : String) (v : V) (d : Dict V) → NodupKeys d → NodupKeys (insert k v d)
  unfolding lookup insert
  insert-NodupKeys k v [] h = (refl, tt)
  insert-NodupKeys k v ((j, w) ∷ d) h =
      ground (arith, eq_iff j k, eq_iff k j, lookup-insert k j v d, insert-NodupKeys k v d h.1)

  pub insert_all-NodupKeys :
      (pairs : List (String × V)) (d : Dict V) → NodupKeys d → NodupKeys (insert_all pairs d)
  unfolding insert_all
  insert_all-NodupKeys [] d h = h
  insert_all-NodupKeys ((k, v) ∷ pairs) d h =
      insert_all-NodupKeys pairs (insert k v d) (insert-NodupKeys k v d h)

  pub from_pairs-NodupKeys : (pairs : List (String × V)) → NodupKeys (from_pairs pairs)
  unfolding from_pairs
  from_pairs-NodupKeys pairs = insert_all-NodupKeys pairs [] tt

  -- What holds of every entry holds of what a lookup returns.
  pub lookup-All {κ} :
      (P : String × V → Type κ) (d : Dict V) (k : String) {v : V}
      → All P d
      → lookup k d ≡ some v
      → P (k, v)
  unfolding lookup
  lookup-All P [] k h e = absurd (cc)
  lookup-All P ((j, w) ∷ d) k {v} h e = elim (Bool-cases (j == k)) [
    | inl same ↦ subst P (ground (arith, eq_iff j k)) h.0
    | inr other ↦ lookup-All P d k h.1 (rw other at e)
  ]

  -- Without duplicate keys, what holds of every lookup holds of every entry.
  pub All-lookup {κ} :
      (P : String × V → Type κ) (d : Dict V)
      → NodupKeys d
      → ((k : String) (v : V) → lookup k d ≡ some v → P (k, v))
      → All P d
  unfolding lookup
  All-lookup P [] n h = tt
  All-lookup P ((j, w) ∷ d) n h = (
    h j w (ground (arith, eq_iff j j)),
    All-lookup P d n.1 (λ k v e. h k v (ground (arith, eq_iff j k, n.0))),
  )

module _ {ℓ} {V : Type ℓ} (d e : Dict V) where
  -- Every entry of `d` is looked up in `e`, and no key of `e` is new.
  abbrev pub Agree : Type ℓ
  Agree = All (λ kv. lookup kv.0 e ≡ some kv.1) d × All (λ kv. has_key kv.0 d ≡ true) e

  lookup-eq_of_Agree : Agree → (k : String) → lookup k d ≡ lookup k e
  lookup-eq_of_Agree (found, known) k = elim (Option-cases (lookup k d)) [
    | inr (v, p) ↦ p ∙ sym (lookup-All (λ kv. lookup kv.0 e ≡ some kv.1) d k found p)
    | inl p ↦ elim (Option-cases (lookup k e)) [
      | inl q ↦ p ∙ sym q
      | inr (v, q) ↦
          absurd (ground (arith, p, lookup-All (λ kv. has_key kv.0 d ≡ true) e k known q))
    ]
  ]

  -- Two dicts that agree entry by entry, as a program compares them, agree at every key.
  pub Agree_iff : NodupKeys d → NodupKeys e → Agree ↔ ((k : String) → lookup k d ≡ lookup k e)
  Agree_iff nd ne = (
    lookup-eq_of_Agree,
    λ same. (
      All-lookup _ d nd (λ k v p. sym (same k) ∙ p),
      All-lookup _ e ne (λ k v p. ground (arith, same k, p)),
    ),
  )
