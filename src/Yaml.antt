-- ===== src/Yaml.antt =====
-- The scalars of src/dotmac_observability/yaml_emit.py: `_quote` and `_scalar`. `float`, which says
-- whether a text is a number, is an argument.
pub mod Quoted
pub mod Decimal
pub mod Reader
pub mod Resolved
pub mod Emit
pub mod OneLine
pub mod Lines
use Prim.Native.Char.{Char, code}
use Prim.Native.Nat.{◌/◌, ◌%◌}
use Prim.Native.String.{◌++◌ as ◌<>◌, char_at}
use dotmac_observability.Prelude.{
  ℕ, zero, suc, ◌+◌, ℤ, pos, negsuc, String, Bool, true, false, not, ◌&&◌, ◌||◌, ◌==◌, List, [],
  ◌∷◌, eqb, ltb, leb, contains, if◌then◌else◌,
}

abbrev is_between : ℕ → ℕ → ℕ → Bool
is_between lo hi c = leb lo c && leb c hi

-- `[A-Za-z_]`
unfoldable pub is_initial : ℕ → Bool
is_initial c = is_between b'A' b'Z' c || is_between b'a' b'z' c || eqb c b'_'

-- `[A-Za-z0-9_.-]`
unfoldable pub is_inner : ℕ → Bool
unfolding is_initial
is_inner c = is_initial c || is_between b'0' b'9' c || eqb c b'.' || eqb c b'-'

-- `[A-Za-z0-9_.-]*$`: the pattern's `$` also matches before a last newline.
unfoldable pub is_rest : String → Bool
unfolding is_inner
is_rest String.[] = true
is_rest (String.◌∷◌ c s) =
    let rest = is_rest s in if is_inner (code c) then rest else eqb (code c) 10 && s == ""

-- `_PLAIN.match`
unfoldable pub is_plain : String → Bool
unfolding is_initial is_rest
is_plain String.[] = false
is_plain (String.◌∷◌ c s) = is_initial (code c) && is_rest s

abbrev pub reserved : List String
reserved =
    "true" ∷ "false" ∷ "null" ∷ "yes" ∷ "no" ∷ "on" ∷ "off" ∷ "y" ∷ "n" ∷ "True" ∷ "False" ∷ "Null"
    ∷ "Yes" ∷ "No" ∷ "On" ∷ "Off" ∷ "Y" ∷ "N" ∷ "TRUE" ∷ "FALSE" ∷ "NULL" ∷ "YES" ∷ "NO" ∷ "ON"
    ∷ "OFF" ∷ "~" ∷ []

-- One digit of `:02x`, of a number below 16.
unfoldable pub hex : ℕ → Char
hex d = char_at "0123456789abcdef" d

abbrev pub quote_mark : Char
quote_mark = "\""

abbrev pub backslash : Char
backslash = "\\"

-- What one character appends, before the rest.
unfoldable pub escape : Char → String → String
unfolding hex
escape c rest =
    if eqb (code c) b'\\'
    then String.◌∷◌ backslash (String.◌∷◌ backslash rest)
    else if eqb (code c) b'"'
    then String.◌∷◌ backslash (String.◌∷◌ quote_mark rest)
    else if eqb (code c) 10
    then String.◌∷◌ backslash (String.◌∷◌ "n" rest)
    else if eqb (code c) 13
    then String.◌∷◌ backslash (String.◌∷◌ "r" rest)
    else if eqb (code c) 9
    then String.◌∷◌ backslash (String.◌∷◌ "t" rest)
    else if ltb (code c) 32
    then String.◌∷◌ backslash
        (String.◌∷◌ "x" (String.◌∷◌ (hex (code c / 16)) (String.◌∷◌ (hex (code c % 16)) rest)))
    else String.◌∷◌ c rest

-- The escaped characters and the closing mark.
unfoldable pub escaped : String → String
unfolding escape
escaped String.[] = String.◌∷◌ quote_mark String.[]
escaped (String.◌∷◌ c s) = escape c (escaped s)

unfoldable pub quote : String → String
unfolding escaped
quote value = String.◌∷◌ quote_mark (escaped value)

-- `str` of a natural number, in front of the digits behind it; each round drops a digit.
unfoldable pub digits : ℕ → ℕ → String → String
unfolding hex
digits zero n acc = acc
digits (suc fuel) n acc =
    let rest = digits fuel (n / 10) (String.◌∷◌ (hex (n % 10)) acc) in
    if ltb n 10 then String.◌∷◌ (hex n) acc else rest

-- `str` of an integer.
unfoldable pub decimal : ℤ → String
unfolding digits
decimal (pos n) = digits (suc n) n ""
decimal (negsuc n) = String.◌∷◌ "-" (digits (suc (suc n)) (suc n) "")

pub data YamlScalar : Type 0 where
  null : YamlScalar
  bool : Bool → YamlScalar
  int : ℤ → YamlScalar
  text : String → YamlScalar

-- `_scalar`; the argument is `_looks_numeric`.
unfoldable pub scalar : (String → Bool) → YamlScalar → String
unfolding is_plain quote decimal
scalar looks_numeric null = "null"
scalar looks_numeric (bool b) = if b then "true" else "false"
scalar looks_numeric (int n) = decimal n
scalar looks_numeric (text value) =
    if is_plain value && not (contains value reserved) && not (looks_numeric value)
    then value
    else quote value
