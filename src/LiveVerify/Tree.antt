-- ===== src/LiveVerify/Tree.antt =====
-- Condition 1 of live_verify.py: the whole rendered tree. The digests of render.py stand here too.
pub mod Matches
use Prim.Native.String.{◌++◌ as ◌<>◌}
use dotmac_observability.Prelude.{
  String, Bool, Option, none, some, List, [], ◌∷◌, ◌++◌, map, flat_map, is_nil, ◌==◌, if◌then◌else◌,
  Dict, lookup, has_key, from_pairs, NodupKeys, from_pairs-NodupKeys,
}
use dotmac_observability.Finding
use dotmac_observability.Finding.{Finding, Code}
use dotmac_observability.Platform.{Platform}
use dotmac_observability.LiveVerify.Records.{LiveState, TreeEntry}

-- `RenderedTree` of render.py: paths and contents, in order.
abbrev pub RenderedTree : Type 0
RenderedTree = List (String × String)

-- What the updates of `tree_digest` feed to the hash, one text after the other.
digest_input : RenderedTree → String
digest_input [] = ""
digest_input ((path, text) ∷ tree) = path <> "\0" <> text <> "\0" <> digest_input tree

module _ (py : Platform) where
  unfoldable pub file_digest : String → String
  file_digest contents = py.sha256 contents

  unfoldable pub tree_digest : RenderedTree → String
  unfolding digest_input
  tree_digest tree = py.sha256 (digest_input tree)

  -- `{path: file_digest(contents) for path, contents in tree}`
  unfoldable pub expected_files : RenderedTree → Dict String
  expected_files tree = from_pairs (map (λ (path, contents). (path, file_digest contents)) tree)

  pub expected_files-NodupKeys : (tree : RenderedTree) → NodupKeys (expected_files tree)
  unfolding expected_files
  expected_files-NodupKeys tree = from_pairs-NodupKeys _

-- `{entry.path: entry.sha256 for entry in live.tree}`
unfoldable pub observed_files : LiveState → Dict String
observed_files live = from_pairs (map (λ (e : TreeEntry). (e.path, e.sha256)) live.tree)

pub observed_files-NodupKeys : (live : LiveState) → NodupKeys (observed_files live)
unfolding observed_files
observed_files-NodupKeys live = from_pairs-NodupKeys _

-- One round of the loop over the expected files.
unfoldable pub missing_or_differs : Dict String → String × String → List Finding
missing_or_differs observed (path, digest) = elim (lookup path observed) [
  | none ↦ record { code = Code.tree_missing; location = path } ∷ []
  | some found ↦
      if found == digest then [] else record { code = Code.tree_differs; location = path } ∷ []
]

-- One round of the loop over the observed files.
unfoldable pub unexpected : Dict String → String × String → List Finding
unexpected expected (path, digest) =
    if has_key path expected
    then []
    else record { code = Code.tree_unexpected; location = path } ∷ []

module _ (py : Platform) where
  unfoldable pub tree_findings : RenderedTree → LiveState → List Finding
  unfolding missing_or_differs unexpected
  tree_findings tree live =
      if is_nil live.tree
      then record { code = Code.tree_not_read; location = "live.tree" } ∷ []
      else flat_map (missing_or_differs (observed_files live)) (expected_files py tree)
        ++ flat_map (unexpected (expected_files py tree)) (observed_files live)
