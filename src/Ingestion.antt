-- ===== src/Ingestion.antt =====
-- `compare_rebuild` of src/dotmac_observability/ingestion.py: the comparison of a rebuilt projection
-- with the authoritative rows.
pub mod Rebuilt
use dotmac_observability.Prelude.{
  ℕ, String, Bool, true, not, ◌==◌, ◌!=◌, ◌&&◌, Option, none, some, List, [], map, keep, is_nil,
  ltb, if◌then◌else◌, Dict, lookup, has_key, sorted,
}

-- The verdict of a RebuildComparison.
pub data RebuildVerdict : Type 0 where
  incomparable matched diverged : RebuildVerdict

pub record RebuildComparison : Type 0 where
  pub verdict : RebuildVerdict
  pub missing : List String
  pub extra : List String
  pub differing : List String

abbrev pub no_comparison : RebuildComparison
no_comparison = record { verdict = incomparable; missing = []; extra = []; differing = [] }

-- The keys of the entries that a test selects, sorted.
unfoldable pub sorted_keys : (String × String → Bool) → Dict String → List String
sorted_keys test d = sorted (map (λ kv. kv.0) (keep test d))

unfoldable pub is_absent : Dict String → String × String → Bool
is_absent d (key, digest) = not (has_key key d)

-- `projection.get(key, digest) != digest`.
unfoldable pub differs : Dict String → String × String → Bool
differs d (key, digest) = elim (lookup key d) [ none ↦ Bool.false | some found ↦ found != digest ]

unfoldable pub compare_rows : Dict String → Dict String → RebuildComparison
unfolding sorted_keys is_absent differs
compare_rows source projection =
    let missing = sorted_keys (is_absent projection) source in
    let extra = sorted_keys (is_absent source) projection in
    let differing = sorted_keys (differs projection) source in
    if is_nil source && is_nil projection
    then no_comparison
    else if is_nil missing && is_nil extra && is_nil differing
    then record { verdict = matched; missing = []; extra = []; differing = [] }
    else record { verdict = diverged; missing = missing; extra = extra; differing = differing }

unfoldable pub compare_rebuild : Option (Dict String) → Option (Dict String) → RebuildComparison
compare_rebuild none projection = no_comparison
compare_rebuild (some source) none = no_comparison
compare_rebuild (some source) (some projection) = compare_rows source projection
