-- ===== src/Yaml/Reader.antt =====
-- A reader of YAML scalars that knows nothing of the emitter: it accepts less than YAML does.
use Prim.Native.Char.{code}
use dotmac_observability.Prelude.{
  ℕ, ℤ, String, Bool, true, false, not, ◌&&◌, ◌||◌, ◌==◌, Option, none, some, List, [], ◌∷◌, eqb,
  leb, contains, if◌then◌else◌,
}
use dotmac_observability.Yaml.{YamlScalar, null, bool, int, text}
use dotmac_observability.Yaml.Quoted.{codes, is_verbatim, unquote}
use dotmac_observability.Yaml.Decimal.{read_int}

-- A text is its code points.
pub data Meaning : Type 0 where
  nothing : Meaning
  truth : Bool → Meaning
  integer : ℤ → Meaning
  string : List ℕ → Meaning

abbrev pub meaning : YamlScalar → Meaning
meaning null = nothing
meaning (bool b) = truth b
meaning (int n) = integer n
meaning (text s) = string (codes s)

abbrev pub as_string : Option (List ℕ) → Option Meaning
as_string none = none
as_string (some s) = some (string s)

abbrev pub as_integer : Option ℤ → Option Meaning
as_integer none = none
as_integer (some n) = some (integer n)

-- A character of a plain scalar: no space, no colon, no comment sign and no bracket, of which YAML
-- takes some in some places.
unfoldable pub is_bare : ℕ → Bool
unfolding is_verbatim
is_bare c =
    is_verbatim c
    && not (eqb c 32)
    && not (eqb c b':')
    && not (eqb c b'#')
    && not (eqb c b',')
    && not (eqb c b'[')
    && not (eqb c b']')
    && not (eqb c b'{')
    && not (eqb c b'}')

unfoldable pub all_bare : String → Bool
unfolding is_bare
all_bare String.[] = true
all_bare (String.◌∷◌ c s) = is_bare (code c) && all_bare s

-- The indicators that begin no plain scalar, beside those that stand in none.
unfoldable pub is_indicator : ℕ → Bool
is_indicator c =
    eqb c b'?'
    || eqb c b'&'
    || eqb c b'*'
    || eqb c b'!'
    || eqb c b'|'
    || eqb c b'>'
    || eqb c 39
    || eqb c b'%'
    || eqb c b'@'
    || eqb c b'`'

-- A number begins so.
unfoldable pub is_number_start : ℕ → Bool
is_number_start c = leb b'0' c && leb c b'9' || eqb c b'-' || eqb c b'+' || eqb c b'.'

-- What YAML 1.1 takes for null or a truth value.
abbrev pub yaml_words : List String
yaml_words =
    "true" ∷ "false" ∷ "null" ∷ "yes" ∷ "no" ∷ "on" ∷ "off" ∷ "y" ∷ "n" ∷ "True" ∷ "False" ∷ "Null"
    ∷ "Yes" ∷ "No" ∷ "On" ∷ "Off" ∷ "Y" ∷ "N" ∷ "TRUE" ∷ "FALSE" ∷ "NULL" ∷ "YES" ∷ "NO" ∷ "ON"
    ∷ "OFF" ∷ "~" ∷ []

-- A plain scalar that is no number. Of the words, the reader knows three.
unfoldable pub read_word : String → Option Meaning
read_word s =
    if s == "null"
    then some nothing
    else if s == "true"
    then some (truth true)
    else if s == "false"
    then some (truth false)
    else if contains s yaml_words
    then none
    else some (string (codes s))

-- The reader accepts less than YAML: of the numbers, decimal integers only.
unfoldable pub read_scalar : String → Option Meaning
unfolding read_word all_bare is_indicator is_number_start
read_scalar String.[] = some nothing
read_scalar (String.◌∷◌ c s) =
    if eqb (code c) b'"'
    then as_string (unquote (String.◌∷◌ c s))
    else if not (all_bare (String.◌∷◌ c s))
    then none
    else if is_number_start (code c)
    then as_integer (read_int (String.◌∷◌ c s))
    else if is_indicator (code c)
    then none
    else read_word (String.◌∷◌ c s)
