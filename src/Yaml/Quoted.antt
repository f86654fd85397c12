-- ===== src/Yaml/Quoted.antt =====
-- What a double-quoted scalar of YAML denotes, read one character at a time. The reader accepts less
-- than YAML: it takes no line break and no control character as it stands, where YAML folds or
-- refuses them.
use Prim.Native.Char.{Char, code}
use Prim.Native.Nat.{◌/◌, ◌%◌}
use dotmac_observability.Prelude.{
  ℕ, zero, suc, ◌+◌, ◌-◌, ◌*◌, ◌<◌, String, Bool, true, false, not, ◌&&◌, ◌||◌, ◌≡◌, refl, sym, ap,
  ◌∙◌, inl, inr, Option, none, some, List, [], ◌∷◌, ◌++◌, arith, eqb, ltb, leb, eqb_iff, ltb→lt,
  Bool-cases, if◌then◌else◌,
}
use dotmac_observability.Yaml.{hex, quote_mark, backslash, escape, escaped, quote}

-- The code points of a text.
abbrev pub codes : String → List ℕ
codes String.[] = []
codes (String.◌∷◌ c s) = code c ∷ codes s

-- A character that stands for itself: no control character, no line break of YAML 1.1 (NEL, LS, PS),
-- no surrogate, byte order mark or noncharacter.
unfoldable pub is_verbatim : ℕ → Bool
is_verbatim c =
    leb 32 c && leb c 126
    || leb 160 c
      && not (eqb c 8232)
      && not (eqb c 8233)
      && not (leb 55296 c && leb c 57343)
      && not (eqb c 65279)
      && not (eqb c 65534)
      && not (eqb c 65535)

-- Nothing but such characters and those below the space.
unfoldable pub is_readable : String → Bool
unfolding is_verbatim
is_readable String.[] = true
is_readable (String.◌∷◌ c s) = (ltb (code c) 32 || is_verbatim (code c)) && is_readable s

-- Where a reader of such a scalar stands.
pub data Mode : Type 0 where
  inside after_backslash high closed : Mode
  low : ℕ → Mode

unfoldable pub unhex : ℕ → Option ℕ
unhex c =
    if leb b'0' c && leb c b'9'
    then some (c - b'0')
    else if leb b'a' c && leb c b'f'
    then some (c - b'a' + 10)
    else none

-- One character: where the reader stands after it, and the code points that it completes.
unfoldable pub step : Mode → ℕ → Option (Mode × List ℕ)
unfolding unhex is_verbatim
step inside c =
    if eqb c b'"'
    then some (closed, [])
    else if eqb c b'\\'
    then some (after_backslash, [])
    else if is_verbatim c
    then some (inside, c ∷ [])
    else none
step after_backslash c =
    if eqb c b'\\'
    then some (inside, b'\\' ∷ [])
    else if eqb c b'"'
    then some (inside, b'"' ∷ [])
    else if eqb c b'n'
    then some (inside, 10 ∷ [])
    else if eqb c b'r'
    then some (inside, 13 ∷ [])
    else if eqb c b't'
    then some (inside, 9 ∷ [])
    else if eqb c b'x'
    then some (high, [])
    else none
step high c = elim (unhex c) [ none ↦ none | some h ↦ some (low h, []) ]
step (low h) c = elim (unhex c) [ none ↦ none | some l ↦ some (inside, (16 * h + l) ∷ []) ]
step closed c = none

-- What was completed, before what the rest gives.
abbrev pub push : List ℕ → Option (List ℕ) → Option (List ℕ)
push out none = none
push out (some more) = some (out ++ more)

unfoldable pub run : Mode → String → Option (List ℕ)
unfolding step
run inside String.[] = none
run after_backslash String.[] = none
run high String.[] = none
run (low h) String.[] = none
run closed String.[] = some []
run m (String.◌∷◌ c s) = elim (step m (code c)) [
  | none ↦ none
  | some next ↦ let (m', out) = next in push out (run m' s)
]

-- The code points that the scalar denotes, if it is well formed.
unfoldable pub unquote : String → Option (List ℕ)
unfolding run
unquote String.[] = none
unquote (String.◌∷◌ c s) = if eqb (code c) b'"' then run inside s else none

run-step :
    (m : Mode) (c : Char) (s : String) (m' : Mode) (out : List ℕ)
    → step m (code c) ≡ some (m', out)
    → run m (String.◌∷◌ c s) ≡ push out (run m' s)
unfolding run step
run-step inside c s m' out h = rw (h, run) refl
run-step after_backslash c s m' out h = rw (h, run) refl
run-step high c s m' out h = rw (h, run) refl
run-step (low l) c s m' out h = rw (h, run) refl
run-step closed c s m' out h = absurd (cc)

push-nil : (o : Option (List ℕ)) → push [] o ≡ o
push-nil none = refl
push-nil (some xs) = refl

-- A character behind a backslash.
run-backslash :
    (c : Char) (rest : String) (m : Mode) (out : List ℕ)
    → step after_backslash (code c) ≡ some (m, out)
    → run inside (String.◌∷◌ backslash (String.◌∷◌ c rest)) ≡ push out (run m rest)
unfolding step
run-backslash c rest m out h =
    run-step inside backslash (String.◌∷◌ c rest) after_backslash [] refl
    ∙ push-nil _
    ∙ run-step after_backslash c rest m out h

pub unhex-hex : (d : ℕ) → d < 16 → unhex (code (hex d)) ≡ some d
unfolding unhex hex
unhex-hex zero h = refl
unhex-hex (suc zero) h = refl
unhex-hex (suc (suc zero)) h = refl
unhex-hex (suc (suc (suc zero))) h = refl
unhex-hex (suc (suc (suc (suc zero)))) h = refl
unhex-hex (suc (suc (suc (suc (suc zero))))) h = refl
unhex-hex (suc (suc (suc (suc (suc (suc zero)))))) h = refl
unhex-hex (suc (suc (suc (suc (suc (suc (suc zero))))))) h = refl
unhex-hex (suc (suc (suc (suc (suc (suc (suc (suc zero)))))))) h = refl
unhex-hex (suc (suc (suc (suc (suc (suc (suc (suc (suc zero))))))))) h = refl
unhex-hex (suc (suc (suc (suc (suc (suc (suc (suc (suc (suc zero)))))))))) h = refl
unhex-hex (suc (suc (suc (suc (suc (suc (suc (suc (suc (suc (suc zero))))))))))) h = refl
unhex-hex (suc (suc (suc (suc (suc (suc (suc (suc (suc (suc (suc (suc zero)))))))))))) h = refl
unhex-hex (suc (suc (suc (suc (suc (suc (suc (suc (suc (suc (suc (suc (suc zero))))))))))))) h =
    refl
unhex-hex (suc (suc (suc (suc (suc (suc (suc (suc (suc (suc (suc (suc (suc (suc zero))))))))))))))
      h =
    refl
unhex-hex
      (suc (suc (suc (suc (suc (suc (suc (suc (suc (suc (suc (suc (suc (suc (suc zero)))))))))))))))
      h =
    refl
unhex-hex
      (suc (
        suc
          (suc (suc (suc (suc (suc (suc (suc (suc (suc (suc (suc (suc (suc (suc (d)))))))))))))))))
      h =
    absurd (omega arith)

-- A character that has an escape of its own.
named :
    (c d : Char) (rest : String) (n : ℕ)
    → eqb (code c) n ≡ true
    → step after_backslash (code d) ≡ some (inside, n ∷ [])
    → run inside (String.◌∷◌ backslash (String.◌∷◌ d rest)) ≡ push (code c ∷ []) (run inside rest)
named c d rest n same h =
    run-backslash d rest inside (n ∷ []) h
    ∙ ap (λ k. push (k ∷ []) (run inside rest)) (sym ((eqb_iff (code c) n).0 same))

run-hex :
    (c : Char) (rest : String)
    → code c < 32
    → run inside (
        String.◌∷◌ backslash
          (String.◌∷◌ "x" (String.◌∷◌ (hex (code c / 16)) (String.◌∷◌ (hex (code c % 16)) rest))))
      ≡ push (code c ∷ []) (run inside rest)
unfolding step
run-hex c rest small =
    let first = unhex-hex (code c / 16) (omega arith) in
    let second = unhex-hex (code c % 16) (omega arith) in
    run-backslash "x" _ high [] refl
    ∙ push-nil _
    ∙ run-step high (hex (code c / 16)) _ (low (code c / 16)) [] (rw (first, step) refl)
    ∙ push-nil _
    ∙ run-step (low (code c / 16)) (hex (code c % 16)) rest inside
        ((16 * (code c / 16) + code c % 16) ∷ []) (rw (second, step) refl)
    ∙ ap (λ k. push (k ∷ []) (run inside rest)) (omega arith)

second_of : (a b : Bool) → a ≡ false → a || b ≡ true → b ≡ true
second_of true b e h = absurd (cc)
second_of false b e h = h

both_of : (a b : Bool) → a && b ≡ true → (a ≡ true) × (b ≡ true)
both_of true b h = (refl, h)
both_of false b h = absurd (cc)

run-escape :
    (c : Char) (rest : String)
    → ltb (code c) 32 || is_verbatim (code c) ≡ true
    → run inside (escape c rest) ≡ push (code c ∷ []) (run inside rest)
unfolding escape step
run-escape c rest shown = elim (Bool-cases (eqb (code c) b'\\')) [
  | inl y ↦ rw (y) (named c backslash rest b'\\' y refl)
  | inr n0 ↦ elim (Bool-cases (eqb (code c) b'"')) [
    | inl y ↦ rw (n0, y) (named c quote_mark rest b'"' y refl)
    | inr n1 ↦ elim (Bool-cases (eqb (code c) 10)) [
      | inl y ↦ rw (n0, n1, y) (named c "n" rest 10 y refl)
      | inr n2 ↦ elim (Bool-cases (eqb (code c) 13)) [
        | inl y ↦ rw (n0, n1, n2, y) (named c "r" rest 13 y refl)
        | inr n3 ↦ elim (Bool-cases (eqb (code c) 9)) [
          | inl y ↦ rw (n0, n1, n2, n3, y) (named c "t" rest 9 y refl)
          | inr n4 ↦ elim (Bool-cases (ltb (code c) 32)) [
            | inl y ↦ rw (n0, n1, n2, n3, n4, y) (run-hex c rest (ltb→lt _ _ y))
            | inr n5 ↦
                rw (n0, n1, n2, n3, n4, n5)
                  (run-step inside c rest inside (code c ∷ [])
                    (rw (n1, n0, second_of _ _ n5 shown, step) refl))
          ]
        ]
      ]
    ]
  ]
]

run-escaped : (s : String) → is_readable s ≡ true → run inside (escaped s) ≡ some (codes s)
unfolding escaped step run is_readable
run-escaped String.[] h = run-step inside quote_mark String.[] closed [] refl
run-escaped (String.◌∷◌ c s) h =
    let (shown, more) = both_of _ (is_readable s) h in
    run-escape c (escaped s) shown ∙ ap (push (code c ∷ [])) (run-escaped s more)

-- Reading the double-quoted scalar that quote writes gives back the code points of the text, if
-- is_readable holds of it: each character is below the space or one that is_verbatim takes. The
-- reader refuses a control character or a line break that stands in the quotes unescaped.
pub unquote-quote : (s : String) → is_readable s ≡ true → unquote (quote s) ≡ some (codes s)
unfolding unquote quote
unquote-quote s h = run-escaped s h
