-- ===== src/Result.antt =====
-- What a Python call gives: a value, or an exception that it raises.
use dotmac_observability.Prelude.{String, List, ◌≡◌, refl, ◌⊎◌, inl, inr}
use dotmac_observability.Finding.{Finding}

pub data Exception : Type 0 where
  key_error : String → Exception
  type_error value_error index_error : Exception
  inventory_error : List Finding → Exception
  -- Of attribution.py.
  unclassified_field leak_refusal : Exception
  -- What a method of the promotion facility raises, by its type's name.
  facility_error : String → Exception

pub data Result {ℓ} (A : Type ℓ) : Type ℓ where
  ok : A → Result A
  raised : Exception → Result A

infixl 5 ◌>>=◌
abbrev pub ◌>>=◌ {ℓ κ} : {A : Type ℓ} {B : Type κ} → Result A → (A → Result B) → Result B
ok a >>= f = f a
raised e >>= f = raised e

pub Result-cases {ℓ} :
    {A : Type ℓ} (r : Result A) → ((a : A) × (r ≡ ok a)) ⊎ ((e : Exception) × (r ≡ raised e))
Result-cases (ok a) = inl (a, refl)
Result-cases (raised e) = inr (e, refl)

pub ok-injective {ℓ} : {A : Type ℓ} {a b : A} → ok a ≡ ok b → a ≡ b
ok-injective h = cc

pub raised-injective {ℓ} :
    {A : Type ℓ} {d e : Exception} → ◌≡◌ {A = Result A} (raised d) (raised e) → d ≡ e
raised-injective h = cc
