-- ===== src/Yaml/Decimal.antt =====
-- The decimal notation of `_scalar`'s integers, read back.
use Prim.Native.Char.{Char, code}
use Prim.Native.Nat.{◌/◌, ◌%◌}
use dotmac_observability.Prelude.{
  ℕ, zero, suc, ◌+◌, ◌-◌, ◌*◌, ◌<◌, ℤ, pos, negsuc, String, Bool, true, false, ◌&&◌, ◌||◌, ◌≡◌,
  refl, sym, ap, ◌∙◌, inl, inr, Option, none, some, arith, eqb, ltb, leb, ltb→lt, Bool-cases,
  if◌then◌else◌,
}
use dotmac_observability.Yaml.{hex, digits, decimal}

-- Digits and `-` only.
unfoldable pub is_numeral : String → Bool
is_numeral String.[] = true
is_numeral (String.◌∷◌ c s) =
    (leb b'0' (code c) && leb (code c) b'9' || eqb (code c) b'-') && is_numeral s

-- The number that the digits denote, behind a number read so far.
unfoldable pub read_digits : ℕ → String → Option ℕ
read_digits v String.[] = some v
read_digits v (String.◌∷◌ c s) =
    let rest = read_digits (10 * v + (code c - b'0')) s in
    if leb b'0' (code c) && leb (code c) b'9' then rest else none

abbrev negated : Option ℕ → Option ℤ
negated none = none
negated (some zero) = some (pos 0)
negated (some (suc n)) = some (negsuc n)

abbrev plain : Option ℕ → Option ℤ
plain none = none
plain (some n) = some (pos n)

-- Behind a minus sign.
unfoldable signed : String → Option ℤ
unfolding read_digits
signed String.[] = none
signed (String.◌∷◌ c s) = negated (read_digits 0 (String.◌∷◌ c s))

unfoldable pub read_int : String → Option ℤ
unfolding read_digits signed
read_int String.[] = none
read_int (String.◌∷◌ c s) =
    if eqb (code c) b'-' then signed s else plain (read_digits 0 (String.◌∷◌ c s))

-- A digit is its number behind the zero.
code-hex : (d : ℕ) → d < 10 → code (hex d) ≡ d + 48
unfolding hex
code-hex zero h = refl
code-hex (suc zero) h = refl
code-hex (suc (suc zero)) h = refl
code-hex (suc (suc (suc zero))) h = refl
code-hex (suc (suc (suc (suc zero)))) h = refl
code-hex (suc (suc (suc (suc (suc zero))))) h = refl
code-hex (suc (suc (suc (suc (suc (suc zero)))))) h = refl
code-hex (suc (suc (suc (suc (suc (suc (suc zero))))))) h = refl
code-hex (suc (suc (suc (suc (suc (suc (suc (suc zero)))))))) h = refl
code-hex (suc (suc (suc (suc (suc (suc (suc (suc (suc zero))))))))) h = refl
code-hex (suc (suc (suc (suc (suc (suc (suc (suc (suc (suc d)))))))))) h = absurd (omega arith)

is_digit_low : (d : ℕ) → leb b'0' (d + 48) ≡ true
is_digit_low d = ground arith

is_digit_high : (d : ℕ) → d < 10 → leb (d + 48) b'9' ≡ true
is_digit_high d h = ground arith

without_zero : (d : ℕ) → d + 48 - b'0' ≡ d
without_zero d = omega arith

read_digits-hex :
    (v d : ℕ) (s : String)
    → d < 10
    → read_digits v (String.◌∷◌ (hex d) s) ≡ read_digits (10 * v + d) s
unfolding read_digits
read_digits-hex v d s h = rw (code-hex d h, is_digit_low d, is_digit_high d h, without_zero d) refl

is_numeral-hex :
    (d : ℕ) (s : String) → d < 10 → is_numeral s ≡ true → is_numeral (String.◌∷◌ (hex d) s) ≡ true
unfolding is_numeral
is_numeral-hex d s h k = rw (code-hex d h, is_digit_low d, is_digit_high d h, k) refl

pub read_digits-digits :
    (fuel n : ℕ) (acc : String) → n < fuel → read_digits 0 (digits fuel n acc) ≡ read_digits n acc
unfolding digits
read_digits-digits zero n acc h = absurd (omega arith)
read_digits-digits (suc fuel) n acc h = elim (Bool-cases (ltb n 10)) [
  | inl small ↦
      rw small
        (read_digits-hex 0 n acc (ltb→lt n 10 small) ∙ ap (λ k. read_digits k acc) (omega arith))
  | inr large ↦ rw large (
      read_digits-digits fuel (n / 10) (String.◌∷◌ (hex (n % 10)) acc) (ground (arith, large))
      ∙ read_digits-hex (n / 10) (n % 10) acc (omega arith)
      ∙ ap (λ k. read_digits k acc) (omega arith))
]

digits-is_numeral :
    (fuel n : ℕ) (acc : String) → is_numeral acc ≡ true → is_numeral (digits fuel n acc) ≡ true
unfolding digits
digits-is_numeral zero n acc h = h
digits-is_numeral (suc fuel) n acc h = elim (Bool-cases (ltb n 10)) [
  | inl small ↦ rw small (is_numeral-hex n acc (ltb→lt n 10 small) h)
  | inr large ↦ rw large (
      digits-is_numeral fuel (n / 10) (String.◌∷◌ (hex (n % 10)) acc)
        (is_numeral-hex (n % 10) acc (omega arith) h))
]

pub decimal-is_numeral : (n : ℤ) → is_numeral (decimal n) ≡ true
unfolding decimal is_numeral
decimal-is_numeral (pos n) = digits-is_numeral (suc n) n "" refl
decimal-is_numeral (negsuc n) = digits-is_numeral (suc (suc n)) (suc n) "" refl

Cons : String → Type 0
Cons s = (c : Char) × (t : String) × (s ≡ String.◌∷◌ c t)

digits-Cons : (fuel n : ℕ) (acc : String) → Cons acc → Cons (digits fuel n acc)
unfolding digits Cons
digits-Cons zero n acc h = h
digits-Cons (suc fuel) n acc h = elim (Bool-cases (ltb n 10)) [
  | inl small ↦ rw small (hex n, acc, refl)
  | inr large ↦ rw large (digits-Cons fuel (n / 10) _ (hex (n % 10), acc, refl))
]

digits-Cons-suc : (fuel n : ℕ) (acc : String) → Cons (digits (suc fuel) n acc)
unfolding digits Cons
digits-Cons-suc fuel n acc = elim (Bool-cases (ltb n 10)) [
  | inl small ↦ rw small (hex n, acc, refl)
  | inr large ↦ rw large (digits-Cons fuel (n / 10) _ (hex (n % 10), acc, refl))
]

pub decimal-Cons : (n : ℤ) → (c : Char) × (t : String) × (decimal n ≡ String.◌∷◌ c t)
unfolding decimal Cons
decimal-Cons (pos n) = digits-Cons-suc n n ""
decimal-Cons (negsuc n) = ("-", _, refl)

unsigned :
    (c : Char) (t : String) (n : ℕ)
    → read_digits 0 (String.◌∷◌ c t) ≡ some n
    → eqb (code c) b'-' ≡ false
unfolding read_digits
unsigned c t n h = ground (arith, h)

read_int-unsigned :
    (c : Char) (t : String) (n : ℕ)
    → read_digits 0 (String.◌∷◌ c t) ≡ some n
    → read_int (String.◌∷◌ c t) ≡ some (pos n)
unfolding read_int
read_int-unsigned c t n h = rw (unsigned c t n h, h) refl

read_digits-all : (n fuel : ℕ) → n < fuel → read_digits 0 (digits fuel n "") ≡ some n
unfolding read_digits
read_digits-all n fuel h = read_digits-digits fuel n "" h

pub read_int-decimal : (n : ℤ) → read_int (decimal n) ≡ some n
unfolding decimal read_int signed Cons
read_int-decimal (pos n) =
    let (c, t, e) = digits-Cons-suc n n "" in
    ap read_int e
    ∙ read_int-unsigned c t n (ap (read_digits 0) (sym e) ∙ read_digits-all n (suc n) (omega arith))
read_int-decimal (negsuc n) =
    let (c, t, e) = digits-Cons-suc (suc n) (suc n) "" in
    ap signed e
    ∙ ap (λ s. negated (read_digits 0 s)) (sym e)
    ∙ ap negated (read_digits-all (suc n) (suc (suc n)) (omega arith))
