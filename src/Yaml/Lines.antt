-- ===== src/Yaml/Lines.antt =====
-- The lines of an emitted document.
use Prim.Native.Char.{Char, code}
use Prim.Native.String.{◌++◌ as ◌<>◌}
use package.text.Mathlib.TextLemmas.{nil-append, cons-append}
use dotmac_observability.Prelude.{
  ℕ, suc, String, Bool, true, false, ◌&&◌, ◌≡◌, refl, ap, ◌∙◌, List, [], ◌∷◌, ◌++◌, map, eqb, All,
  All-append, if◌then◌else◌,
}
use dotmac_observability.Yaml.{text, scalar}
use dotmac_observability.Yaml.OneLine.{
  has_newline, append-newline, has_newline-lstrip, has_newline-rstrip, head_newline, tail_newline,
  is_tidy, has_newline-scalar, has_newline-indent,
}
use dotmac_observability.Yaml.Emit.{
  YamlValue, Entries, Items, leaf, mapping, sequence, no_entry, entry, no_item, item, indent,
  lstrip, ride, label, emit_mapping, emit_sequence, comment, join_lines, emit,
}

-- `str.splitlines` at newlines: what stands before the first one, and the rest.
attach : Char → List String → List String
attach c [] = String.◌∷◌ c "" ∷ []
attach c (l ∷ ls) = String.◌∷◌ c l ∷ ls

unfoldable pub lines : String → List String
unfolding attach
lines String.[] = []
lines (String.◌∷◌ c s) = let rest = lines s in if eqb (code c) 10 then "" ∷ rest else attach c rest

lines-newline : (rest : String) → lines ("\n" <> rest) ≡ "" ∷ lines rest
unfolding lines
lines-newline rest = ap lines (cons-append "\n" "" rest) ∙ ap (λ t. "" ∷ lines t) (nil-append rest)

lines-cons :
    (c : Char) (s : String) → eqb (code c) 10 ≡ false → lines (String.◌∷◌ c s) ≡ attach c (lines s)
unfolding lines
lines-cons c s h = rw h refl

lines-append :
    (l rest : String) → has_newline l ≡ false → lines (l <> "\n" <> rest) ≡ l ∷ lines rest
unfolding attach
lines-append String.[] rest h = ap lines (nil-append ("\n" <> rest)) ∙ lines-newline rest
lines-append (String.◌∷◌ c s) rest h =
    ap lines (cons-append c s ("\n" <> rest))
    ∙ lines-cons c (s <> "\n" <> rest) (head_newline c s h)
    ∙ ap (attach c) (lines-append s rest (tail_newline c s h))

OneLine : String → Type 0
OneLine l = has_newline l ≡ false

-- What the lines of a document are; a document without lines is one blank line.
abbrev pub or_blank : List String → List String
or_blank [] = "" ∷ []
or_blank (l ∷ ls) = l ∷ ls

lines-join_lines : (ls : List String) → All OneLine ls → lines (join_lines ls) ≡ or_blank ls
unfolding join_lines lines OneLine
lines-join_lines [] h = refl
lines-join_lines (l ∷ []) h = lines-append l "" h.0
lines-join_lines (l ∷ m ∷ ls) h =
    lines-append l (join_lines (m ∷ ls)) h.0 ∙ ap (λ rest. l ∷ rest) (lines-join_lines (m ∷ ls) h.1)

-- No key and no text of a value ends in a newline.
unfoldable mutual
  pub tidy_entries : Entries → Bool
  tidy_entries no_entry = true
  tidy_entries (entry key v rest) = (is_tidy (text key) && tidy_value v) && tidy_entries rest

  pub tidy_value : YamlValue → Bool
  tidy_value (leaf v) = is_tidy v
  tidy_value (mapping es) = tidy_entries es
  tidy_value (sequence is) = tidy_items is

  pub tidy_items : Items → Bool
  tidy_items no_item = true
  tidy_items (item v rest) = tidy_value v && tidy_items rest

both : (a b : Bool) → a && b ≡ true → (a ≡ true) × (b ≡ true)
both true b h = (refl, h)
both false b h = absurd (cc)

ride-OneLine :
    (pad : String) (ls : List String) → OneLine pad → All OneLine ls → All OneLine (ride pad ls)
unfolding ride OneLine has_newline
ride-OneLine pad [] p h = tt
ride-OneLine pad (l ∷ ls) p h = (
  append-newline pad ("- " <> lstrip l) p
      (append-newline "- " (lstrip l) refl (has_newline-lstrip l h.0)),
  h.1,
)

module _ (looks_numeric : String → Bool) where
  label-OneLine :
      (depth : ℕ) (key : String)
      → is_tidy (text key) ≡ true
      → has_newline (label looks_numeric depth key) ≡ false
  unfolding label has_newline
  label-OneLine depth key h = append-newline (indent depth) _ (has_newline-indent depth) (
      append-newline (scalar looks_numeric (text key)) ":"
        (has_newline-scalar looks_numeric (text key) h) refl)

  mutual
    unfolding emit_mapping label tidy_entries OneLine has_newline

    mapping-OneLine :
        (es : Entries) (depth : ℕ)
        → tidy_entries es ≡ true
        → All OneLine (emit_mapping looks_numeric depth es)
    mapping-OneLine no_entry depth h = tt
    mapping-OneLine (entry key (leaf v) rest) depth h =
        let (kv, r) = both (is_tidy (text key) && is_tidy v) (tidy_entries rest) h in
        let (k, t) = both (is_tidy (text key)) (is_tidy v) kv in
        (
          append-newline (label looks_numeric depth key) (" " <> scalar looks_numeric v)
              (label-OneLine depth key k)
              (append-newline " " (scalar looks_numeric v) refl
                (has_newline-scalar looks_numeric v t)),
          mapping-OneLine rest depth r,
        )
    mapping-OneLine (entry key (mapping no_entry) rest) depth h =
        let (kv, r) = both (is_tidy (text key) && true) (tidy_entries rest) h in
        let (k, t) = both (is_tidy (text key)) true kv in
        (
          append-newline (label looks_numeric depth key) " {}" (label-OneLine depth key k) refl,
          mapping-OneLine rest depth r,
        )
    mapping-OneLine (entry key (mapping (entry k' v es)) rest) depth h =
        let (kv, r) =
          both (is_tidy (text key) && tidy_entries (entry k' v es)) (tidy_entries rest) h in
        let (k, t) = both (is_tidy (text key)) (tidy_entries (entry k' v es)) kv in
        (
          label-OneLine depth key k,
          (All-append OneLine (emit_mapping looks_numeric (suc depth) (entry k' v es))
                (emit_mapping looks_numeric depth rest)).1
              (mapping-OneLine (entry k' v es) (suc depth) t, mapping-OneLine rest depth r),
        )
    mapping-OneLine (entry key (sequence no_item) rest) depth h =
        let (kv, r) = both (is_tidy (text key) && true) (tidy_entries rest) h in
        let (k, t) = both (is_tidy (text key)) true kv in
        (
          append-newline (label looks_numeric depth key) " []" (label-OneLine depth key k) refl,
          mapping-OneLine rest depth r,
        )
    mapping-OneLine (entry key (sequence (item v is)) rest) depth h =
        let (kv, r) = both (is_tidy (text key) && tidy_items (item v is)) (tidy_entries rest) h in
        let (k, t) = both (is_tidy (text key)) (tidy_items (item v is)) kv in
        (
          label-OneLine depth key k,
          (All-append OneLine (emit_sequence looks_numeric (suc depth) (item v is))
                (emit_mapping looks_numeric depth rest)).1
              (sequence-OneLine (item v is) (suc depth) t, mapping-OneLine rest depth r),
        )

    sequence-OneLine :
        (is : Items) (depth : ℕ)
        → tidy_items is ≡ true
        → All OneLine (emit_sequence looks_numeric depth is)
    sequence-OneLine no_item depth h = tt
    sequence-OneLine (item (leaf v) rest) depth h =
        let (t, r) = both (is_tidy v) (tidy_items rest) h in
        (
          append-newline (indent depth) ("- " <> scalar looks_numeric v) (has_newline-indent depth)
              (append-newline "- " (scalar looks_numeric v) refl
                (has_newline-scalar looks_numeric v t)),
          sequence-OneLine rest depth r,
        )
    sequence-OneLine (item (mapping no_entry) rest) depth h = (
      append-newline (indent depth) "- {}" (has_newline-indent depth) refl,
      sequence-OneLine rest depth h,
    )
    sequence-OneLine (item (mapping (entry k' v es)) rest) depth h =
        let (t, r) = both (tidy_entries (entry k' v es)) (tidy_items rest) h in
        (All-append OneLine
            (ride (indent depth) (emit_mapping looks_numeric (suc depth) (entry k' v es)))
            (emit_sequence looks_numeric depth rest)).1
          (
            ride-OneLine (indent depth) (emit_mapping looks_numeric (suc depth) (entry k' v es))
                (has_newline-indent depth) (mapping-OneLine (entry k' v es) (suc depth) t),
            sequence-OneLine rest depth r,
          )
    sequence-OneLine (item (sequence no_item) rest) depth h = (
      append-newline (indent depth) "- []" (has_newline-indent depth) refl,
      sequence-OneLine rest depth h,
    )
    sequence-OneLine (item (sequence (item v is)) rest) depth h =
        let (t, r) = both (tidy_items (item v is)) (tidy_items rest) h in
        (All-append OneLine
            (ride (indent depth) (emit_sequence looks_numeric (suc depth) (item v is)))
            (emit_sequence looks_numeric depth rest)).1
          (
            ride-OneLine (indent depth) (emit_sequence looks_numeric (suc depth) (item v is))
                (has_newline-indent depth) (sequence-OneLine (item v is) (suc depth) t),
            sequence-OneLine rest depth r,
          )

comment-OneLine : (line : String) → has_newline line ≡ false → has_newline (comment line) ≡ false
unfolding comment has_newline
comment-OneLine line h = has_newline-rstrip ("# " <> line) (append-newline "# " line refl h)

header-OneLine :
    (header : List String)
    → All (λ line. has_newline line ≡ false) header
    → All OneLine (map comment header)
unfolding OneLine
header-OneLine [] h = tt
header-OneLine (line ∷ header) h = (comment-OneLine line h.0, header-OneLine header h.1)

-- If no header line has a newline and no key and no text of the document ends in one, splitting
-- what emit writes at its newlines gives the comments of the header and the lines of the mapping,
-- and one blank line where there are none of either.
pub lines-emit :
    (looks_numeric : String → Bool) (header : List String) (document : Entries)
    → All (λ line. has_newline line ≡ false) header
    → tidy_entries document ≡ true
    → lines (emit looks_numeric header document)
      ≡ or_blank (map comment header ++ emit_mapping looks_numeric 0 document)
unfolding emit
lines-emit looks_numeric header document h t =
    lines-join_lines (map comment header ++ emit_mapping looks_numeric 0 document) (
      (All-append OneLine (map comment header) (emit_mapping looks_numeric 0 document)).1
        (header-OneLine header h, mapping-OneLine looks_numeric document 0 t))
