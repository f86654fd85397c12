-- ===== src/Drift/Clean.antt =====
-- A drift report is clean exactly when all three artifacts are there and every pair agrees.
use dotmac_observability.Prelude.{
  String, ◌≡◌, ◌↔◌, refl, true, not, ◌!=◌, Option, none, some, List, [], ◌∷◌, ◌++◌, arith, eq_iff,
  eqb_iff, inl, inr, Bool-cases, Option-cases, is_nil, is_nil-eq-true, flat_map, flat_map-eq-nil,
  append-eq-nil, All-iff, Dict, lookup, has_key, Agree, Agree_iff, length, when, eqb, ℕ, sym,
}
use mathlib.Core.Path.{subst}
use mathlib.Core.Option.{some-injective}
use dotmac_observability.Finding.{Finding, Code}
use dotmac_observability.Platform.{Platform}
use dotmac_observability.LiveVerify.Records.{LiveState}
use dotmac_observability.LiveVerify.Tree.{
  RenderedTree, tree_digest, expected_files, expected_files-NodupKeys, observed_files,
  observed_files-NodupKeys,
}
use dotmac_observability.LiveVerify.Tree.Matches.{TreeMatches}
use dotmac_observability.Receipt.{Receipt, Observed, rules_semantic_digest, targets_up}
use dotmac_observability.Drift.{
  report_findings, clean, absent_artifact, changed, stale, desired_and_live, compare_desired,
  live_and_receipt, compare_live, compare_receipt, compare,
}

-- The receipt recorded what the host shows.
pub record RecordMatches (py : Platform) (live : LiveState) (r : Receipt) : Type 0 where
  pub block : Observed
  pub observed : r.observed ≡ some block
  pub release : live.release.current ≡ block.release.current
  pub rules : block.live.rules_semantic_digest ≡ rules_semantic_digest py live
  pub targets : targets_up live.targets ≡ block.live.targets_up
  pub routes : length live.routes ≡ block.live.routes_verified

-- All three were supplied, and each pair agrees.
pub record NoDrift (py : Platform) (tree : Option RenderedTree) (live : Option LiveState)
    (receipt : Option Receipt) : Type 0 where
  pub desired : RenderedTree
  pub running : LiveState
  pub recorded : Receipt
  pub has_tree : tree ≡ some desired
  pub has_live : live ≡ some running
  pub has_receipt : receipt ≡ some recorded
  pub files : TreeMatches py desired running
  pub record_matches : RecordMatches py running recorded
  pub rendered : recorded.rendered_digest ≡ tree_digest py desired

abbrev Block : Platform → LiveState → Observed → Type 0
Block py live o =
    (live.release.current ≡ o.release.current)
    × (o.live.rules_semantic_digest ≡ rules_semantic_digest py live)
    × (targets_up live.targets ≡ o.live.targets_up)
    × (length live.routes ≡ o.live.routes_verified)

changed-eq-nil :
    (observed : Dict String) (kv : String × String)
    → (changed observed kv ≡ []) ↔ (lookup kv.0 observed ≡ some kv.1)
unfolding changed
changed-eq-nil observed kv = elim (Option-cases (lookup kv.0 observed)) [
  | inl absent ↦ rw absent (λ h. absurd (cc), λ h. absurd (cc))
  | inr (found, present) ↦ rw present (ground (arith, eq_iff found kv.1))
]

stale-eq-nil :
    (expected : Dict String) (kv : String × String)
    → (stale expected kv ≡ []) ↔ (has_key kv.0 expected ≡ true)
unfolding stale
stale-eq-nil expected kv = ground arith

changes-eq-nil :
    (expected observed : Dict String)
    → (flat_map (changed observed) expected ++ flat_map (stale expected) observed ≡ [])
      ↔ Agree expected observed
changes-eq-nil expected observed = (
  λ h.
      let r = (append-eq-nil _ _).0 h in
      (
        (All-iff _ _ (changed-eq-nil observed) expected).0 ((flat_map-eq-nil _ _).0 r.0),
        (All-iff _ _ (stale-eq-nil expected) observed).0 ((flat_map-eq-nil _ _).0 r.1),
      ),
  λ h. (append-eq-nil _ _).1 (
    (flat_map-eq-nil _ _).1 ((All-iff _ _ (changed-eq-nil observed) expected).1 h.0),
    (flat_map-eq-nil _ _).1 ((All-iff _ _ (stale-eq-nil expected) observed).1 h.1),
  ),
)

desired_and_live-eq-nil :
    (py : Platform) (tree : RenderedTree) (live : LiveState)
    → (desired_and_live py tree live ≡ []) ↔ TreeMatches py tree live
unfolding desired_and_live
desired_and_live-eq-nil py tree live =
    let expected = expected_files py tree in
    let observed = observed_files live in
    let agree =
      Agree_iff expected observed (expected_files-NodupKeys py tree)
        (observed_files-NodupKeys live) in
    elim (Bool-cases (is_nil live.tree)) [
      | inl empty ↦ rw empty (λ h. absurd (cc), λ h. absurd (cc h.was_read))
      | inr listed ↦ rw listed (
        λ h. record { was_read = listed; same = agree.0 ((changes-eq-nil _ _).0 h) },
        λ h. (changes-eq-nil _ _).1 (agree.1 h.same),
      )
    ]

not_nil : (fs : List Finding) (f : Finding) → ¬ (fs ++ (f ∷ []) ≡ [])
not_nil fs f h = let r = (append-eq-nil fs (f ∷ [])).0 h in absurd (cc r.1)

four_tests-eq-nil :
    (a b c d : String) (x y z w : ℕ) (f g h i : Finding)
    → (when (a != b) (f ∷ [])
          ++ when (c != d) (g ∷ [])
          ++ when (not (eqb x y)) (h ∷ [])
          ++ when (not (eqb z w)) (i ∷ [])
        ≡ [])
      ↔ ((a ≡ b) × (c ≡ d) × (x ≡ y) × (z ≡ w))
four_tests-eq-nil a b c d x y z w f g h i =
    ground (arith, eq_iff a b, eq_iff c d, eqb_iff x y, eqb_iff z w)

live_and_receipt-eq-nil :
    (py : Platform) (live : LiveState) (r : Receipt)
    → (live_and_receipt py live r ≡ []) ↔ RecordMatches py live r
unfolding live_and_receipt
live_and_receipt-eq-nil py live r = elim (Option-cases r.observed) [
  | inl bare ↦ rw bare (λ h. absurd (not_nil _ _ h), λ h. absurd (cc h.observed))
  | inr (o, e) ↦
      let tests =
        four_tests-eq-nil live.release.current o.release.current o.live.rules_semantic_digest
          (rules_semantic_digest py live) (targets_up live.targets) o.live.targets_up
          (length live.routes) o.live.routes_verified
          (record { code = Code.drift_live_receipt; location = "release.current" })
          (record { code = Code.drift_live_receipt; location = "live.rules_semantic_digest" })
          (record { code = Code.drift_live_receipt; location = "live.targets_up" })
          (record { code = Code.drift_live_receipt; location = "live.routes_verified" }) in
      rw e (
        λ h.
            let (release, rules, targets, routes) = tests.0 h in
            record {
              block = o;
              observed = refl;
              release = release;
              rules = rules;
              targets = targets;
              routes = routes;
            },
        λ h.
            let same = some-injective o h.block h.observed in
            tests.1 (subst (Block py live) (sym same) (h.release, h.rules, h.targets, h.routes)),
      )
]

rendered-eq-nil :
    (py : Platform) (tree : RenderedTree) (r : Receipt)
    → (compare_receipt py (some tree) (some r) ≡ []) ↔ (r.rendered_digest ≡ tree_digest py tree)
unfolding compare_receipt
rendered-eq-nil py tree r = ground (arith, eq_iff r.rendered_digest (tree_digest py tree))

nil_of_clean :
    (a b c d : List Finding) → is_nil (a ++ b ++ c ++ d) ≡ true → (b ≡ []) × (c ≡ []) × (d ≡ [])
nil_of_clean a b c d h =
    let r = (append-eq-nil (a ++ b ++ c) d).0 (is_nil-eq-true _ h) in
    let q = (append-eq-nil (a ++ b) c).0 r.0 in (((append-eq-nil a b).0 q.0).1, q.1, r.1)

clean_of_parts :
    (py : Platform) (t : RenderedTree) (l : LiveState) (r : Receipt)
    → TreeMatches py t l
    → RecordMatches py l r
    → r.rendered_digest ≡ tree_digest py t
    → clean (compare py (some t) (some l) (some r)) ≡ true
unfolding compare clean report_findings absent_artifact compare_desired compare_live
clean_of_parts py t l r files recorded rendered =
    rw
      (
        (desired_and_live-eq-nil py t l).1 files,
        (live_and_receipt-eq-nil py l r).1 recorded,
        (rendered-eq-nil py t r).1 rendered,
      )
      refl

NoDrift-of_clean :
    (py : Platform) (tree : Option RenderedTree) (live : Option LiveState)
    (receipt : Option Receipt)
    → clean (compare py tree live receipt) ≡ true
    → NoDrift py tree live receipt
unfolding compare clean report_findings absent_artifact compare_desired compare_live
NoDrift-of_clean py none live receipt h = absurd (cc)
NoDrift-of_clean py (some t) none receipt h = absurd (cc)
NoDrift-of_clean py (some t) (some l) none h = absurd (cc)
NoDrift-of_clean py (some t) (some l) (some r) h =
    let (d, c, q) = nil_of_clean [] _ _ _ h in
    record {
      desired = t;
      running = l;
      recorded = r;
      has_tree = refl;
      has_live = refl;
      has_receipt = refl;
      files = (desired_and_live-eq-nil py t l).0 d;
      record_matches = (live_and_receipt-eq-nil py l r).0 c;
      rendered = (rendered-eq-nil py t r).0 q;
    }

-- A drift report is clean exactly when the tree, the read-back and the receipt were all supplied,
-- the files on the host are those of the tree, the receipt has the release, the rules digest and
-- the counts of healthy targets and of routes that the read-back has, and it has the digest of the
-- tree.
pub clean-NoDrift :
    (py : Platform) (tree : Option RenderedTree) (live : Option LiveState)
    (receipt : Option Receipt)
    → (clean (compare py tree live receipt) ≡ true) ↔ NoDrift py tree live receipt
clean-NoDrift py tree live receipt = (
  NoDrift-of_clean py tree live receipt,
  λ h.
      rw (h.has_tree, h.has_live, h.has_receipt)
        (clean_of_parts py h.desired h.running h.recorded h.files h.record_matches h.rendered),
)
