-- ===== src/LiveVerify/Tree/Matches.antt =====
-- Condition 1 holds exactly when something was read and the two maps from path to digest agree.
use dotmac_observability.Prelude.{
  String, ◌≡◌, ◌↔◌, true, false, some, [], arith, eq_iff, ◌++◌, inl, inr, Bool-cases, Option-cases,
  is_nil, flat_map, flat_map-eq-nil, append-eq-nil, All-iff, Dict, lookup, has_key, Agree,
  Agree_iff,
}
use dotmac_observability.Platform.{Platform}
use dotmac_observability.LiveVerify.Records.{LiveState}
use dotmac_observability.LiveVerify.Tree.{
  RenderedTree, expected_files, expected_files-NodupKeys, observed_files, observed_files-NodupKeys,
  missing_or_differs, unexpected, tree_findings,
}

missing_or_differs-eq-nil :
    (observed : Dict String) (kv : String × String)
    → (missing_or_differs observed kv ≡ []) ↔ (lookup kv.0 observed ≡ some kv.1)
unfolding missing_or_differs
missing_or_differs-eq-nil observed kv = elim (Option-cases (lookup kv.0 observed)) [
  | inl absent ↦ rw absent (λ h. absurd (cc), λ h. absurd (cc))
  | inr (found, present) ↦ rw present (ground (arith, eq_iff found kv.1))
]

unexpected-eq-nil :
    (expected : Dict String) (kv : String × String)
    → (unexpected expected kv ≡ []) ↔ (has_key kv.0 expected ≡ true)
unfolding unexpected
unexpected-eq-nil expected kv = ground arith

-- The two loops find nothing exactly when the dicts agree.
diffs-eq-nil :
    (expected observed : Dict String)
    → (flat_map (missing_or_differs observed) expected ++ flat_map (unexpected expected) observed
        ≡ [])
      ↔ Agree expected observed
diffs-eq-nil expected observed = (
  λ h.
      let r = (append-eq-nil _ _).0 h in
      (
        (All-iff _ _ (missing_or_differs-eq-nil observed) expected).0 ((flat_map-eq-nil _ _).0 r.0),
        (All-iff _ _ (unexpected-eq-nil expected) observed).0 ((flat_map-eq-nil _ _).0 r.1),
      ),
  λ h. (append-eq-nil _ _).1 (
    (flat_map-eq-nil _ _).1 ((All-iff _ _ (missing_or_differs-eq-nil observed) expected).1 h.0),
    (flat_map-eq-nil _ _).1 ((All-iff _ _ (unexpected-eq-nil expected) observed).1 h.1),
  ),
)

-- Every path has the rendered digest on the host, no other path is there, and something was read.
pub record TreeMatches (py : Platform) (tree : RenderedTree) (live : LiveState) : Type 0 where
  pub was_read : is_nil live.tree ≡ false
  pub same :
      (path : String) → lookup path (expected_files py tree) ≡ lookup path (observed_files live)

module _ (py : Platform) (tree : RenderedTree) (live : LiveState) where
  -- Condition 1 finds nothing in the tree exactly when the read-back lists a file and every path
  -- has the same digest, or none, in the rendered tree and on the host.
  pub tree_findings-eq-nil : (tree_findings py tree live ≡ []) ↔ TreeMatches py tree live
  unfolding tree_findings
  tree_findings-eq-nil =
      let expected = expected_files py tree in
      let observed = observed_files live in
      let agree =
        Agree_iff expected observed (expected_files-NodupKeys py tree)
          (observed_files-NodupKeys live) in
      elim (Bool-cases (is_nil live.tree)) [
        | inl empty ↦ rw empty (λ h. absurd (cc), λ h. absurd (cc h.was_read))
        | inr listed ↦ rw listed (
          λ h. record { was_read = listed; same = agree.0 ((diffs-eq-nil _ _).0 h) },
          λ h. (diffs-eq-nil _ _).1 (agree.1 h.same),
        )
      ]
