-- ===== src/Yaml/Emit.antt =====
-- The emitter: `_emit_mapping`, `_emit_sequence` and `emit`.
use Prim.Native.Char.{code}
use Prim.Native.String.{◌++◌ as ◌<>◌}
use dotmac_observability.Prelude.{
  ℕ, zero, suc, String, Bool, ◌&&◌, ◌||◌, ◌==◌, List, [], ◌∷◌, ◌++◌, map, eqb, leb, if◌then◌else◌,
}
use dotmac_observability.Yaml.{YamlScalar, text, scalar}

-- A YamlValue; the entries of a mapping and the items of a sequence stand in order.
mutual
  pub data YamlValue : Type 0 where
    leaf : YamlScalar → YamlValue
    mapping : Entries → YamlValue
    sequence : Items → YamlValue

  pub data Entries : Type 0 where
    no_entry : Entries
    entry : String → YamlValue → Entries → Entries

  pub data Items : Type 0 where
    no_item : Items
    item : YamlValue → Items → Items

-- `_INDENT * depth`
unfoldable pub indent : ℕ → String
indent zero = ""
indent (suc depth) = "  " <> indent depth

-- `str.isspace` of one character.
unfoldable pub is_space : ℕ → Bool
is_space c =
    leb 9 c && leb c 13
    || leb 28 c && leb c 32
    || eqb c 133
    || eqb c 160
    || eqb c 5760
    || leb 8192 c && leb c 8202
    || eqb c 8232
    || eqb c 8233
    || eqb c 8239
    || eqb c 8287
    || eqb c 12288

unfoldable pub lstrip : String → String
unfolding is_space
lstrip String.[] = ""
lstrip (String.◌∷◌ c s) = let rest = lstrip s in if is_space (code c) then rest else String.◌∷◌ c s

unfoldable pub rstrip : String → String
unfolding is_space
rstrip String.[] = ""
rstrip (String.◌∷◌ c s) =
    let rest = rstrip s in if rest == "" && is_space (code c) then "" else String.◌∷◌ c rest

-- The first of the nested lines rides the dash. They are the lines of a value that is not empty,
-- so there is a first one.
unfoldable pub ride : String → List String → List String
unfolding lstrip
ride pad [] = []
ride pad (first ∷ rest) = (pad <> "- " <> lstrip first) ∷ rest

unfoldable pub comment : String → String
unfolding rstrip
comment line = rstrip ("# " <> line)

-- `"\n".join(out)` with a newline behind it.
unfoldable pub join_lines : List String → String
join_lines [] = "\n"
join_lines (l ∷ []) = l <> "\n"
join_lines (l ∷ m ∷ ls) = l <> "\n" <> join_lines (m ∷ ls)

module _ (looks_numeric : String → Bool) where
  unfoldable pub label : ℕ → String → String
  unfolding indent
  label depth key = indent depth <> scalar looks_numeric (text key) <> ":"

  unfoldable mutual
    unfolding label ride indent

    -- The lines of `_emit_mapping`.
    pub emit_mapping : ℕ → Entries → List String
    emit_mapping depth no_entry = []
    emit_mapping depth (entry key (leaf v) rest) =
        (label depth key <> " " <> scalar looks_numeric v) ∷ emit_mapping depth rest
    emit_mapping depth (entry key (mapping no_entry) rest) =
        (label depth key <> " {}") ∷ emit_mapping depth rest
    emit_mapping depth (entry key (mapping (entry k v es)) rest) =
        (label depth key ∷ emit_mapping (suc depth) (entry k v es)) ++ emit_mapping depth rest
    emit_mapping depth (entry key (sequence no_item) rest) =
        (label depth key <> " []") ∷ emit_mapping depth rest
    emit_mapping depth (entry key (sequence (item v is)) rest) =
        (label depth key ∷ emit_sequence (suc depth) (item v is)) ++ emit_mapping depth rest

    -- The lines of `_emit_sequence`.
    pub emit_sequence : ℕ → Items → List String
    emit_sequence depth no_item = []
    emit_sequence depth (item (leaf v) rest) =
        (indent depth <> "- " <> scalar looks_numeric v) ∷ emit_sequence depth rest
    emit_sequence depth (item (mapping no_entry) rest) =
        (indent depth <> "- {}") ∷ emit_sequence depth rest
    emit_sequence depth (item (mapping (entry k v es)) rest) =
        ride (indent depth) (emit_mapping (suc depth) (entry k v es)) ++ emit_sequence depth rest
    emit_sequence depth (item (sequence no_item) rest) =
        (indent depth <> "- []") ∷ emit_sequence depth rest
    emit_sequence depth (item (sequence (item v is)) rest) =
        ride (indent depth) (emit_sequence (suc depth) (item v is)) ++ emit_sequence depth rest

  unfoldable pub emit : List String → Entries → String
  unfolding emit_mapping comment join_lines
  emit header document = join_lines (map comment header ++ emit_mapping 0 document)
