-- ===== src/Yaml/Resolved.antt =====
-- What the reader takes a scalar of the emitter to be.
use Prim.Native.Char.{Char, code}
use dotmac_observability.Prelude.{
  ℕ, ℤ, String, Bool, true, false, not, ◌&&◌, ◌||◌, ◌==◌, ◌≡◌, refl, sym, ap, ◌∙◌, inl, inr, some,
  List, arith, eq_iff, eqb, leb, contains, Bool-cases,
}
use dotmac_observability.Yaml.{
  is_initial, is_inner, is_rest, is_plain, decimal, reserved, YamlScalar, null, bool, int, text,
  scalar,
}
use dotmac_observability.Yaml.Quoted.{codes, is_verbatim, is_readable, unquote-quote}
use dotmac_observability.Yaml.Reader.{
  integer, string, meaning, as_string, is_bare, all_bare, is_indicator, is_number_start, yaml_words,
  read_word, read_scalar,
}
use dotmac_observability.Yaml.Decimal.{
  is_numeral, read_int, decimal-is_numeral, decimal-Cons, read_int-decimal,
}
use dotmac_observability.Yaml.OneLine.{
  has_newline, head_newline, tail_newline, plain-newline, is_tidy,
}

not_word :
    (s w : String) (ws : List String)
    → contains s ws ≡ false
    → contains w ws ≡ true
    → (s == w) ≡ false
not_word s w ws h k = elim (Bool-cases (s == w)) [
  | inl same ↦ absurd (cc (ap (λ t. contains t ws) ((eq_iff s w).0 same), h, k))
  | inr other ↦ other
]

read_word-text :
    (s : String) → contains s yaml_words ≡ false → read_word s ≡ some (string (codes s))
unfolding read_word
read_word-text s r =
    rw
      (
        not_word s "null" yaml_words r refl,
        not_word s "true" yaml_words r refl,
        not_word s "false" yaml_words r refl,
        r,
      )
      refl

inner-is_bare : (c : ℕ) → is_inner c ≡ true → is_bare c ≡ true
unfolding is_inner is_initial is_bare is_verbatim
inner-is_bare c h = ground (arith, h)

initial-is_inner : (c : ℕ) → is_initial c ≡ true → is_inner c ≡ true
unfolding is_inner
initial-is_inner c h = rw h refl

digit-is_bare : (c : ℕ) → leb b'0' c && leb c b'9' || eqb c b'-' ≡ true → is_bare c ≡ true
unfolding is_bare is_verbatim
digit-is_bare c h = ground (arith, h)

both_of : (a b : Bool) → a && b ≡ true → (a ≡ true) × (b ≡ true)
both_of true b h = (refl, h)
both_of false b h = absurd (cc)

rest-all_bare : (s : String) → is_rest s ≡ true → has_newline s ≡ false → all_bare s ≡ true
unfolding is_rest all_bare
rest-all_bare String.[] h k = refl
rest-all_bare (String.◌∷◌ c s) h k = elim (Bool-cases (is_inner (code c))) [
  | inl inner ↦
      rw (inner-is_bare (code c) inner, rest-all_bare s (rw inner at h) (tail_newline c s k)) refl
  | inr other ↦
      absurd (cc (head_newline c s k, (both_of (eqb (code c) 10) (s == "") (rw other at h)).0))
]

plain-all_bare : (s : String) → is_plain s ≡ true → has_newline s ≡ false → all_bare s ≡ true
unfolding is_plain all_bare
plain-all_bare String.[] h k = refl
plain-all_bare (String.◌∷◌ c s) h k =
    let (first, more) = both_of (is_initial (code c)) (is_rest s) h in
    rw
      (
        inner-is_bare (code c) (initial-is_inner (code c) first),
        rest-all_bare s more (tail_newline c s k),
      )
      refl

numeral-all_bare : (s : String) → is_numeral s ≡ true → all_bare s ≡ true
unfolding is_numeral all_bare
numeral-all_bare String.[] h = refl
numeral-all_bare (String.◌∷◌ c s) h =
    let (first, more) = both_of _ (is_numeral s) h in
    rw (digit-is_bare (code c) first, numeral-all_bare s more) refl

-- What a plain scalar of the emitter does not begin with.
initial_start :
    (c : ℕ)
    → is_initial c ≡ true
    → (eqb c b'"' ≡ false) × (is_number_start c ≡ false) × (is_indicator c ≡ false)
unfolding is_initial is_number_start is_indicator
initial_start c h = (ground (arith, h), ground (arith, h), ground (arith, h))

digit_start :
    (c : ℕ)
    → leb b'0' c && leb c b'9' || eqb c b'-' ≡ true
    → (eqb c b'"' ≡ false) × (is_number_start c ≡ true)
unfolding is_number_start
digit_start c h = (ground (arith, h), ground (arith, h))

-- A text that is not quoted is read as it stands.
read_scalar-plain :
    (s : String)
    → is_plain s ≡ true
    → has_newline s ≡ false
    → contains s yaml_words ≡ false
    → read_scalar s ≡ some (string (codes s))
unfolding read_scalar is_plain
read_scalar-plain String.[] p n r = absurd (cc)
read_scalar-plain (String.◌∷◌ c s) p n r =
    let (first, _) = both_of (is_initial (code c)) (is_rest s) p in
    let (unmarked, word, free) = initial_start (code c) first in
    rw (unmarked, plain-all_bare (String.◌∷◌ c s) p n, word, free)
      (read_word-text (String.◌∷◌ c s) r)

read_scalar-numeral :
    (c : Char) (s : String) (n : ℤ)
    → is_numeral (String.◌∷◌ c s) ≡ true
    → read_int (String.◌∷◌ c s) ≡ some n
    → read_scalar (String.◌∷◌ c s) ≡ some (integer n)
unfolding read_scalar is_numeral
read_scalar-numeral c s n d r =
    let (first, _) = both_of _ (is_numeral s) d in
    let (unmarked, number) = digit_start (code c) first in
    rw (unmarked, numeral-all_bare (String.◌∷◌ c s) d, number, r) refl

read_scalar-decimal : (n : ℤ) → read_scalar (decimal n) ≡ some (integer n)
read_scalar-decimal n =
    let (c, s, e) = decimal-Cons n in
    ap read_scalar e
    ∙ read_scalar-numeral c s n (ap is_numeral (sym e) ∙ decimal-is_numeral n)
        (ap read_int (sym e) ∙ read_int-decimal n)

-- The three tests that let a text stand unquoted.
unquoted_tests :
    (a b c : Bool) → a && not b && not c ≡ true → (a ≡ true) × (b ≡ false) × (c ≡ false)
unquoted_tests true false false h = (refl, refl, refl)
unquoted_tests true false true h = absurd (cc)
unquoted_tests true true c h = absurd (cc)
unquoted_tests false b c h = absurd (cc)

-- A text that a reader can take, escaped or not.
abbrev pub is_clear : YamlScalar → Bool
is_clear null = true
is_clear (bool b) = true
is_clear (int n) = true
is_clear (text s) = is_readable s

not-true : (b : Bool) → not b ≡ true → b ≡ false
not-true true h = absurd (cc)
not-true false h = refl

-- Whatever the number test is, reading what scalar writes gives back null as null, a truth value
-- as that value, an integer as that integer, and a text as its code points if it does not end in a
-- newline and is_readable holds of it. The reader resolves scalars without the emitter's tests: it
-- takes no control character and no line break as it stands, reads no text from an unquoted number
-- or reserved word, and none from an unquoted scalar that begins with an indicator or has a space,
-- a colon, a comma, a bracket or a comment sign.
pub read_scalar-scalar :
    (looks_numeric : String → Bool) (v : YamlScalar)
    → is_tidy v ≡ true
    → is_clear v ≡ true
    → read_scalar (scalar looks_numeric v) ≡ some (meaning v)
unfolding read_scalar scalar
read_scalar-scalar looks_numeric null h k = refl
read_scalar-scalar looks_numeric (bool true) h k = refl
read_scalar-scalar looks_numeric (bool false) h k = refl
read_scalar-scalar looks_numeric (int n) h k = read_scalar-decimal n
read_scalar-scalar looks_numeric (text s) h k =
    elim (Bool-cases (is_plain s && not (contains s reserved) && not (looks_numeric s))) [
      | inl unquoted ↦
          let (p, r, _) = unquoted_tests _ _ _ unquoted in
          rw unquoted (read_scalar-plain s p (plain-newline s p (not-true _ h)) r)
      | inr quoted ↦ rw quoted (ap as_string (unquote-quote s k))
    ]
