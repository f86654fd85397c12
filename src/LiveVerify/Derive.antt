-- ===== src/LiveVerify/Derive.antt =====
-- What live_verify.py derives from the desired state, so that a read-back supplies only what was
-- measured: the families and the chain of a surface, the outcome to expect, the counters that the
-- gates name, the alert a gate renders to, and a window in seconds. Texts are read as ASCII.
use Prim.Native.Char.{Char, code}
use Prim.Native.String.{char_at, ◌++◌ as ◌<>◌}
use dotmac_observability.Prelude.{
  ℕ, ◌+◌, ◌-◌, ◌*◌, String, Bool, true, false, ◌&&◌, ◌||◌, not, Option, none, some, List, [], ◌∷◌,
  ◌++◌, map, leb, eqb, ◌==◌, if◌then◌else◌, flat_map, contains,
}
use dotmac_observability.Model.{Surface, DesiredState, VerificationGate}

unfoldable pub families_of : Surface → List String
families_of s = if s.family == "dual_stack" then "ipv4" ∷ "ipv6" ∷ [] else s.family ∷ []

unfoldable pub chain_for : Surface → String → String
chain_for s family =
    if s.kind == "container_published" && family == "ipv4" then "DOCKER-USER" else "INPUT"

unfoldable pub expectation_for : Surface → String
expectation_for s = if s.exposure == "public" then "reachable" else "refused"

unfoldable pub declared_probe_slots : DesiredState → List (String × String)
unfolding families_of
declared_probe_slots state =
    flat_map (λ s. map (λ family. (s.name, family)) (families_of s)) state.bundle.exposure.surfaces

is_between : ℕ → ℕ → Char → Bool
is_between lo hi c = leb lo (code c) && leb (code c) hi

is_digit : Char → Bool
unfolding is_between
is_digit c = is_between b'0' b'9' c

is_lower : Char → Bool
unfolding is_between
is_lower c = is_between b'a' b'z' c

is_upper : Char → Bool
unfolding is_between
is_upper c = is_between b'A' b'Z' c

is_underscore : Char → Bool
is_underscore c = eqb (code c) b'_'

-- `\w`.
is_word : Char → Bool
unfolding is_digit is_lower is_upper is_underscore
is_word c = is_digit c || is_lower c || is_upper c || is_underscore c

single : Char → String
single c = String.◌∷◌ c String.[]

-- The maximal runs of word characters, between which the `\b` of a pattern matches.
words : String → String → List String
unfolding is_word single
words run String.[] = if run == "" then [] else run ∷ []
words run (String.◌∷◌ c s) =
    let rest = words (if is_word c then run <> single c else "") s in
    if is_word c || run == "" then rest else run ∷ rest

-- `[a-z0-9_]*` to the end of the word.
is_metric_rest : String → Bool
unfolding is_digit is_lower is_underscore
is_metric_rest String.[] = true
is_metric_rest (String.◌∷◌ c s) = (is_lower c || is_digit c || is_underscore c) && is_metric_rest s

ends_total : String → Bool
ends_total String.[] = false
ends_total (String.◌∷◌ c s) = String.◌∷◌ c s == "_total" || ends_total s

-- `_METRIC_NAME` on a whole word: it can begin and end nowhere else.
is_metric_name : String → Bool
unfolding is_lower is_underscore is_metric_rest ends_total
is_metric_name String.[] = false
is_metric_name (String.◌∷◌ c s) =
    (is_lower c || is_underscore c) && is_metric_rest s && ends_total s

-- The loop over the tokens of the gates' predicates, with what was found so far.
add_counters : List String → List String → List String
unfolding is_metric_name
add_counters found [] = found
add_counters found (token ∷ tokens) =
    add_counters
      (if is_metric_name token && not (contains token found) then found ++ (token ∷ []) else found)
      tokens

gate_counters : List String → List VerificationGate → List String
unfolding add_counters words
gate_counters found [] = found
gate_counters found (gate ∷ gates) =
    gate_counters (add_counters found (words "" gate.integrity)) gates

unfoldable pub integrity_counters : DesiredState → List String
unfolding gate_counters
integrity_counters state = gate_counters [] state.bundle.gates

to_upper : Char → Char
unfolding is_lower
to_upper c = if is_lower c then char_at "ABCDEFGHIJKLMNOPQRSTUVWXYZ" (code c - b'a') else c

to_lower : Char → Char
unfolding is_upper
to_lower c = if is_upper c then char_at "abcdefghijklmnopqrstuvwxyz" (code c - b'A') else c

-- `"".join(part.capitalize() for part in name.replace(".", "-").split("-"))` in one pass; the flag
-- says that a part begins here.
capitalize_parts : Bool → String → String
unfolding to_upper to_lower
capitalize_parts begins String.[] = ""
capitalize_parts begins (String.◌∷◌ c s) =
    let cut = eqb (code c) b'.' || eqb (code c) b'-' in
    let rest = capitalize_parts cut s in
    if cut then rest else String.◌∷◌ (if begins then to_upper c else to_lower c) rest

unfoldable pub meta_alert_name : String → String
unfolding capitalize_parts
meta_alert_name name = capitalize_parts true name

unit_seconds : Char → Option ℕ
unit_seconds c =
    if eqb (code c) b's'
    then some 1
    else if eqb (code c) b'm'
    then some 60
    else if eqb (code c) b'h'
    then some 3600
    else if eqb (code c) b'd'
    then some 86400
    else none

-- The unit and the end; the pattern's `$` lets one newline stand behind it.
scaled : ℕ → Char → String → Option ℕ
unfolding unit_seconds
scaled n c s =
    if s == "" || s == "\n"
    then elim (unit_seconds c) [ none ↦ none | some u ↦ some (n * u) ]
    else none

-- `^(\d+)([smhd])$`, with the number read so far and whether a digit was.
read_duration : Bool → ℕ → String → Option ℕ
unfolding is_digit scaled
read_duration digits n String.[] = none
read_duration digits n (String.◌∷◌ c s) =
    let rest = read_duration true (n * 10 + (code c - b'0')) s in
    if is_digit c then rest else if digits then scaled n c s else none

unfoldable pub duration_seconds : String → Option ℕ
unfolding read_duration
duration_seconds value = read_duration false 0 value
