-- ===== src/Ingestion/Rebuilt.antt =====
-- A rebuilt projection matches exactly when something was compared and the rows agree.
use dotmac_observability.Prelude.{
  String, ◌≡◌, ◌↔◌, refl, sym, Bool, true, false, ◌&&◌, Option, none, some, List, [], ◌∷◌, map,
  keep-eq-nil, is_nil, is_nil-eq-true, arith, eq_iff, inl, inr, Option-cases, All, All-iff, All-zip,
  Dict, lookup, has_key, sorted-eq-nil, NodupKeys, Agree, Agree_iff,
}
use mathlib.Core.Path.{subst}
use mathlib.Core.Option.{some-injective}
use dotmac_observability.Ingestion.{
  matched, sorted_keys, is_absent, differs, compare_rows, compare_rebuild,
}

map-eq-nil : (xs : List (String × String)) → (map (λ kv. kv.0) xs ≡ []) ↔ (xs ≡ [])
map-eq-nil [] = (λ h. refl, λ h. refl)
map-eq-nil (x ∷ xs) = (λ h. absurd (cc), λ h. absurd (cc))

sorted_keys-eq-nil :
    (test : String × String → Bool) (d : Dict String)
    → (sorted_keys test d ≡ []) ↔ All (λ kv. test kv ≡ false) d
unfolding sorted_keys
sorted_keys-eq-nil test d =
    let none_kept = keep-eq-nil test d in
    (
      λ h. none_kept.0 ((map-eq-nil _).0 ((sorted-eq-nil _).0 h)),
      λ h. (sorted-eq-nil _).1 ((map-eq-nil _).1 (none_kept.1 h)),
    )

row_agrees :
    (d : Dict String) (kv : String × String)
    → ((is_absent d kv ≡ false) × (differs d kv ≡ false)) ↔ (lookup kv.0 d ≡ some kv.1)
unfolding is_absent differs
row_agrees d kv = elim (Option-cases (lookup kv.0 d)) [
  | inl absent ↦ rw absent (λ h. absurd (cc), λ h. absurd (cc))
  | inr (found, present) ↦ rw present (ground (arith, eq_iff found kv.1))
]

row_known :
    (d : Dict String) (kv : String × String) → (is_absent d kv ≡ false) ↔ (has_key kv.0 d ≡ true)
unfolding is_absent
row_known d kv = ground arith

rows-eq-nil :
    (source projection : Dict String)
    → ((sorted_keys (is_absent projection) source ≡ [])
        × (sorted_keys (is_absent source) projection ≡ [])
        × (sorted_keys (differs projection) source ≡ []))
      ↔ Agree source projection
rows-eq-nil source projection =
    let missing = sorted_keys-eq-nil (is_absent projection) source in
    let extra = sorted_keys-eq-nil (is_absent source) projection in
    let differing = sorted_keys-eq-nil (differs projection) source in
    let agree = All-iff _ _ (row_agrees projection) source in
    let known = All-iff _ _ (row_known source) projection in
    let both =
      All-zip (λ kv. is_absent projection kv ≡ false) (λ kv. differs projection kv ≡ false)
        source in
    (
      λ (m, e, d). (agree.0 (both.0 (missing.0 m, differing.0 d)), known.0 (extra.0 e)),
      λ (a, k).
          let parts = both.1 (agree.1 a) in
          (missing.1 parts.0, extra.1 (known.1 k), differing.1 parts.1),
    )

-- A Python dict has each key once.
abbrev pub Unique : Option (Dict String) → Type 0
Unique none = Unit
Unique (some d) = NodupKeys d

-- Both sides were read, one of them has a row, and every row has one content on both.
pub record Rebuilt (source projection : Option (Dict String)) : Type 0 where
  pub from : Dict String
  pub to : Dict String
  pub read_source : source ≡ some from
  pub read_projection : projection ≡ some to
  pub compared : is_nil from && is_nil to ≡ false
  pub same : (key : String) → lookup key from ≡ lookup key to

is_nil_iff : (xs : List String) → (is_nil xs ≡ true) ↔ (xs ≡ [])
is_nil_iff xs = (is_nil-eq-true xs, λ h. rw h refl)

compare_rows-matched :
    (source projection : Dict String)
    → ((compare_rows source projection).verdict ≡ matched) ↔ (
        (is_nil source && is_nil projection ≡ false)
        × (sorted_keys (is_absent projection) source ≡ [])
        × (sorted_keys (is_absent source) projection ≡ [])
        × (sorted_keys (differs projection) source ≡ []))
unfolding compare_rows
compare_rows-matched source projection =
    let m = sorted_keys (is_absent projection) source in
    let e = sorted_keys (is_absent source) projection in
    let d = sorted_keys (differs projection) source in
    ground (arith, is_nil_iff m, is_nil_iff e, is_nil_iff d)

-- Where each side that was read has no key twice, the verdict of compare_rebuild is matched
-- exactly when both sides were read, one of them has a row, and every key has the same digest, or
-- none, on both.
pub compare_rebuild-Rebuilt :
    (source projection : Option (Dict String))
    → Unique source
    → Unique projection
    → ((compare_rebuild source projection).verdict ≡ matched) ↔ Rebuilt source projection
unfolding compare_rebuild
compare_rebuild-Rebuilt none projection ns np = (λ h. absurd (cc), λ h. absurd (cc h.read_source))
compare_rebuild-Rebuilt (some s) none ns np = (λ h. absurd (cc), λ h. absurd (cc h.read_projection))
compare_rebuild-Rebuilt (some s) (some p) ns np =
    let agree = Agree_iff s p ns np in
    let rows = rows-eq-nil s p in
    let verdict = compare_rows-matched s p in
    (
      λ h.
          let (compared, m, e, d) = verdict.0 h in
          record {
            from = s;
            to = p;
            read_source = refl;
            read_projection = refl;
            compared = compared;
            same = agree.0 (rows.0 (m, e, d));
          },
      λ h.
          let a = sym (some-injective s h.from h.read_source) in
          let b = sym (some-injective p h.to h.read_projection) in
          let compared =
            subst (λ x. is_nil x && is_nil p ≡ false) a
              (subst (λ y. is_nil h.from && is_nil y ≡ false) b h.compared) in
          let same : (key : String) → lookup key s ≡ lookup key p = λ key.
            subst (λ x. lookup key x ≡ lookup key p) a
              (subst (λ y. lookup key h.from ≡ lookup key y) b (h.same key)) in
          let (m, e, d) = rows.1 (agree.1 same) in verdict.1 (compared, m, e, d),
    )
