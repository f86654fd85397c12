-- ===== src/Yaml/OneLine.antt =====
-- Which scalars and pads of the emitter stand on one line.
use Prim.Native.Char.{Char, code}
use Prim.Native.Nat.{◌/◌, ◌%◌}
use Prim.Native.String.{◌++◌ as ◌<>◌}
use package.text.Mathlib.TextLemmas.{nil-append, cons-append}
use dotmac_observability.Prelude.{
  ℕ, zero, suc, ◌<◌, String, Bool, true, false, ◌&&◌, ◌||◌, not, ◌==◌, ◌≡◌, refl, sym, ap, ◌∙◌, inl,
  inr, arith, eq_iff, eqb, eqb_iff, ltb, ltb→lt, contains, Bool-cases, if◌then◌else◌,
}
use dotmac_observability.Yaml.{
  hex, quote_mark, backslash, is_initial, is_inner, is_rest, is_plain, reserved, escape, escaped,
  quote, decimal, YamlScalar, null, bool, int, text, scalar,
}
use dotmac_observability.Yaml.Quoted.{unhex, unhex-hex}
use dotmac_observability.Yaml.Decimal.{is_numeral, decimal-is_numeral}
use dotmac_observability.Yaml.Emit.{indent, is_space, lstrip, rstrip}

unfoldable pub has_newline : String → Bool
has_newline String.[] = false
has_newline (String.◌∷◌ c s) = eqb (code c) 10 || has_newline s

unfoldable pub ends_newline : String → Bool
ends_newline String.[] = false
ends_newline (String.◌∷◌ c s) =
    let rest = ends_newline s in if s == "" then eqb (code c) 10 else rest

or_assoc : (a b c : Bool) → (a || b) || c ≡ a || (b || c)
or_assoc true b c = refl
or_assoc false b c = refl

pub has_newline-append : (s t : String) → has_newline (s <> t) ≡ has_newline s || has_newline t
unfolding has_newline
has_newline-append String.[] t = ap has_newline (nil-append t)
has_newline-append (String.◌∷◌ c s) t =
    ap has_newline (cons-append c s t)
    ∙ ap (λ b. eqb (code c) 10 || b) (has_newline-append s t)
    ∙ sym (or_assoc (eqb (code c) 10) (has_newline s) (has_newline t))

-- Two texts on one line make one.
pub append-newline :
    (s t : String) → has_newline s ≡ false → has_newline t ≡ false → has_newline (s <> t) ≡ false
append-newline s t h k = has_newline-append s t ∙ rw (h, k) refl

cons-newline :
    (c : Char) (s : String)
    → eqb (code c) 10 ≡ false
    → has_newline s ≡ false
    → has_newline (String.◌∷◌ c s) ≡ false
unfolding has_newline
cons-newline c s h k = rw (h, k) refl

if-newline :
    (b : Bool) (s t : String)
    → (b ≡ true → has_newline s ≡ false)
    → (b ≡ false → has_newline t ≡ false)
    → has_newline (if b then s else t) ≡ false
if-newline true s t h k = h refl
if-newline false s t h k = k refl

pub head_newline :
    (c : Char) (s : String) → has_newline (String.◌∷◌ c s) ≡ false → eqb (code c) 10 ≡ false
unfolding has_newline
head_newline c s h = left_false _ _ h
  where
    left_false : (a b : Bool) → a || b ≡ false → a ≡ false
    left_false true b h = h
    left_false false b h = refl

pub tail_newline :
    (c : Char) (s : String) → has_newline (String.◌∷◌ c s) ≡ false → has_newline s ≡ false
unfolding has_newline
tail_newline c s h = right_false _ _ h
  where
    right_false : (a b : Bool) → a || b ≡ false → b ≡ false
    right_false true b h = absurd (cc)
    right_false false b h = h

pub has_newline-lstrip : (s : String) → has_newline s ≡ false → has_newline (lstrip s) ≡ false
unfolding has_newline lstrip
has_newline-lstrip String.[] h = refl
has_newline-lstrip (String.◌∷◌ c s) h = ground (arith, h, has_newline-lstrip s)

pub has_newline-rstrip : (s : String) → has_newline s ≡ false → has_newline (rstrip s) ≡ false
unfolding has_newline rstrip
has_newline-rstrip String.[] h = refl
has_newline-rstrip (String.◌∷◌ c s) h =
    if-newline (rstrip s == "" && is_space (code c)) "" (String.◌∷◌ c (rstrip s)) (λ _. refl)
      (λ _.
        cons-newline c (rstrip s) (head_newline c s h) (has_newline-rstrip s (tail_newline c s h)))

inner-newline : (c : ℕ) → is_inner c ≡ true → eqb c 10 ≡ false
unfolding is_inner is_initial
inner-newline c h = ground (arith, h)

initial-newline : (c : ℕ) → is_initial c ≡ true → eqb c 10 ≡ false
unfolding is_initial
initial-newline c h = ground (arith, h)

ends_newline-tail :
    (c : Char) (s : String) → ends_newline (String.◌∷◌ c s) ≡ false → ends_newline s ≡ false
unfolding ends_newline
ends_newline-tail c s h = elim (Bool-cases (s == "")) [
  | inl empty ↦ ap ends_newline ((eq_iff s "").0 empty)
  | inr more ↦ rw more at h
]

no_last_newline : (a b c : Bool) → a && b ≡ true → (if b then a else c) ≡ false → ⊥
no_last_newline true true c h k = absurd (cc)
no_last_newline true false c h k = absurd (cc)
no_last_newline false b c h k = absurd (cc)

rest-newline : (s : String) → is_rest s ≡ true → ends_newline s ≡ false → has_newline s ≡ false
unfolding is_rest ends_newline has_newline
rest-newline String.[] h e = refl
rest-newline (String.◌∷◌ c s) h e = elim (Bool-cases (is_inner (code c))) [
  | inl inner ↦
      cons-newline c s (inner-newline (code c) inner)
        (rest-newline s (rw inner at h) (ends_newline-tail c s e))
  | inr other ↦ absurd (no_last_newline (eqb (code c) 10) (s == "") _ (rw other at h) e)
]

both_true : (a b : Bool) → a && b ≡ true → (a ≡ true) × (b ≡ true)
both_true true b h = (refl, h)
both_true false b h = absurd (cc)

pub plain-newline :
    (s : String) → is_plain s ≡ true → ends_newline s ≡ false → has_newline s ≡ false
unfolding is_plain has_newline
plain-newline String.[] h e = refl
plain-newline (String.◌∷◌ c s) h e =
    let (first, more) = both_true (is_initial (code c)) (is_rest s) h in
    cons-newline c s (initial-newline (code c) first)
      (rest-newline s more (ends_newline-tail c s e))

numeral-newline : (s : String) → is_numeral s ≡ true → has_newline s ≡ false
unfolding is_numeral has_newline
numeral-newline String.[] h = refl
numeral-newline (String.◌∷◌ c s) h = ground (arith, h, numeral-newline s)

hex-newline : (d : ℕ) → d < 16 → eqb (code (hex d)) 10 ≡ false
unfolding unhex
hex-newline d h = elim (Bool-cases (eqb (code (hex d)) 10)) [
  | inl newline ↦
      absurd (cc (ap unhex (sym ((eqb_iff (code (hex d)) 10).0 newline)), unhex-hex d h))
  | inr other ↦ other
]

sixteenth : (n : ℕ) → ltb n 32 ≡ true → n / 16 < 16
sixteenth n h = let small = ltb→lt n 32 h in omega arith

escape-newline :
    (c : Char) (rest : String) → has_newline rest ≡ false → has_newline (escape c rest) ≡ false
unfolding escape
escape-newline c rest h =
    let pair : (d : Char)
        → eqb (code d) 10 ≡ false
        → has_newline (String.◌∷◌ backslash (String.◌∷◌ d rest)) ≡ false =
      λ d k. cons-newline backslash _ refl (cons-newline d rest k h) in
    if-newline (eqb (code c) 92) _ _ (λ _. pair backslash refl)
      (λ _.
        if-newline (eqb (code c) 34) _ _ (λ _. pair quote_mark refl)
          (λ _.
            if-newline (eqb (code c) 10) _ _ (λ _. pair "n" refl)
              (λ other.
                if-newline (eqb (code c) 13) _ _ (λ _. pair "r" refl)
                  (λ _.
                    if-newline (eqb (code c) 9) _ _ (λ _. pair "t" refl)
                      (λ _.
                        if-newline (ltb (code c) 32) _ _
                          (λ small. cons-newline backslash _ refl (
                            cons-newline "x" _ refl (
                              cons-newline (hex (code c / 16)) _
                                (hex-newline (code c / 16) (sixteenth (code c) small))
                                (cons-newline (hex (code c % 16)) rest
                                  (hex-newline (code c % 16) (omega arith)) h))))
                          (λ _. cons-newline c rest other h))))))

escaped-newline : (s : String) → has_newline (escaped s) ≡ false
unfolding escaped has_newline
escaped-newline String.[] = cons-newline quote_mark "" refl refl
escaped-newline (String.◌∷◌ c s) = escape-newline c (escaped s) (escaped-newline s)

pub has_newline-quote : (s : String) → has_newline (quote s) ≡ false
unfolding quote
has_newline-quote s = cons-newline quote_mark (escaped s) refl (escaped-newline s)

abbrev pub is_tidy : YamlScalar → Bool
is_tidy null = true
is_tidy (bool b) = true
is_tidy (int n) = true
is_tidy (text s) = not (ends_newline s)

first_of : (a b c : Bool) → a && b && c ≡ true → a ≡ true
first_of true b c h = refl
first_of false b c h = absurd (cc)

not-true : (b : Bool) → not b ≡ true → b ≡ false
not-true true h = absurd (cc)
not-true false h = refl

pub has_newline-scalar :
    (looks_numeric : String → Bool) (v : YamlScalar)
    → is_tidy v ≡ true
    → has_newline (scalar looks_numeric v) ≡ false
unfolding scalar has_newline
has_newline-scalar looks_numeric null h = refl
has_newline-scalar looks_numeric (bool true) h = refl
has_newline-scalar looks_numeric (bool false) h = refl
has_newline-scalar looks_numeric (int n) h = numeral-newline (decimal n) (decimal-is_numeral n)
has_newline-scalar looks_numeric (text s) h =
    if-newline (is_plain s && not (contains s reserved) && not (looks_numeric s)) s (quote s)
      (λ unquoted.
        plain-newline s
          (first_of (is_plain s) (not (contains s reserved)) (not (looks_numeric s)) unquoted)
          (not-true (ends_newline s) h))
      (λ _. has_newline-quote s)

pub has_newline-indent : (depth : ℕ) → has_newline (indent depth) ≡ false
unfolding indent has_newline
has_newline-indent zero = refl
has_newline-indent (suc depth) = append-newline "  " (indent depth) refl (has_newline-indent depth)
