-- ===== src/Samples/Written.antt =====
-- Scalars and a document of the YAML writer, and the theorems on it at them.
use dotmac_observability.Prelude.{
  pos, negsuc, true, false, ◌≡◌, refl, none, some, [], ◌∷◌, ◌++◌, map,
}
use dotmac_observability.Yaml.{
  is_plain, is_rest, quote, hex, escape, escaped, decimal, digits, scalar, text, int,
}
use dotmac_observability.Yaml.Quoted.{
  codes, is_verbatim, is_readable, step, run, unquote, unquote-quote,
}
use dotmac_observability.Yaml.Decimal.{is_numeral}
use dotmac_observability.Yaml.Reader.{meaning, is_bare, all_bare, read_scalar}
use dotmac_observability.Yaml.Resolved.{read_scalar-scalar}
use dotmac_observability.Yaml.Emit.{
  Entries, entry, no_entry, leaf, mapping, sequence, item, no_item, comment, emit_mapping, emit,
  indent, label, ride, lstrip, is_space,
}
use dotmac_observability.Yaml.OneLine.{has_newline, ends_newline, is_tidy}
use dotmac_observability.Yaml.Lines.{lines, or_blank, tidy_entries, lines-emit}

quoted-readable : is_readable "a \"b\"\n" ≡ true
unfolding is_readable is_verbatim
quoted-readable = refl

unquote-quote_example : unquote (quote "a \"b\"\n") ≡ some (codes "a \"b\"\n")
unquote-quote_example = unquote-quote "a \"b\"\n" quoted-readable

name-tidy : is_tidy (text "api-1.local") ≡ true
unfolding ends_newline
name-tidy = refl

name-readable : is_readable "api-1.local" ≡ true
unfolding is_readable is_verbatim
name-readable = refl

read_scalar-scalar_example :
    read_scalar (scalar is_numeral (text "api-1.local")) ≡ some (meaning (text "api-1.local"))
read_scalar-scalar_example =
    read_scalar-scalar is_numeral (text "api-1.local") name-tidy name-readable

minus_read : read_scalar (decimal (negsuc 41)) ≡ some (meaning (int (negsuc 41)))
unfolding scalar
minus_read = read_scalar-scalar is_numeral (int (negsuc 41)) refl refl

-- A newline as it stands is read neither in a quoted scalar nor in a plain one.
raw_newline : unquote "\"a\nb\"" ≡ none
unfolding unquote is_verbatim step run
raw_newline = refl

newline_lost : read_scalar (scalar is_numeral (text "api\n")) ≡ none
unfolding read_scalar scalar is_plain is_rest is_numeral all_bare is_bare is_verbatim
newline_lost = refl

-- A scrape job of a Prometheus configuration.
abbrev document : Entries
document =
    entry "scrape_configs"
      (sequence (
        item
          (mapping (
            entry "job_name" (leaf (text "api")) (
              entry "scrape_interval" (leaf (text "30s"))
                (entry "params" (mapping no_entry) no_entry))))
          no_item))
      (entry "port" (leaf (int (pos 9090))) no_entry)

document-lines :
    emit_mapping is_numeral 0 document
    ≡ "scrape_configs:" ∷ "  - job_name: api" ∷ "    scrape_interval: \"30s\"" ∷ "    params: {}"
      ∷ "port: 9090" ∷ []
unfolding emit_mapping label indent ride lstrip is_space scalar is_plain is_rest is_numeral quote
    escaped escape hex decimal digits
document-lines = refl

document-tidy : tidy_entries document ≡ true
unfolding tidy_entries ends_newline
document-tidy = refl

header_line : has_newline "Generated." ≡ false
unfolding has_newline
header_line = refl

lines-emit_example :
    lines (emit is_numeral ("Generated." ∷ []) document)
    ≡ or_blank (map comment ("Generated." ∷ []) ++ emit_mapping is_numeral 0 document)
lines-emit_example =
    lines-emit is_numeral ("Generated." ∷ []) document (header_line, tt) document-tidy

-- The newline is written as it stands.
text_with_newline : scalar is_numeral (text "api\n") ≡ "api\n"
unfolding scalar is_plain is_rest is_numeral
text_with_newline = refl
