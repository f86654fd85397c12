-- ===== src/Promote/Journal/Stops.antt =====
-- A stop adds at most a rollback to the calls, and that only after staging.
use dotmac_observability.Prelude.{
  ℕ, ◌≤◌, ◌≡◌, ◌⊎◌, inl, inr, refl, ap, Bool, ◌&&◌, Option, none, some, Option-cases, Bool-cases,
  List, [], ◌∷◌, ◌++◌, take, is_none, ltb, length, String,
}
use dotmac_observability.Finding.{Finding}
use dotmac_observability.Result.{Result, ok, raised}
use dotmac_observability.Platform.{Platform}
use dotmac_observability.LiveVerify.Records.{LiveState, Verification}
use dotmac_observability.LiveVerify.Tree.{RenderedTree}
use dotmac_observability.Promote.Records.{rollback_from, PromotionFacility, Request, Progress}
use dotmac_observability.Promote.Stop.{read_back, restore, settle, conclude, stop}
use dotmac_observability.Promote.Run.{}
use dotmac_observability.Promote.Journal.{Call, rollback_call, forward, journal}

-- A prefix of the forward calls, with a rollback behind it only where staging was called.
abbrev pub Ordered : List Call → Type 0
Ordered calls =
    (n : ℕ) × ((calls ≡ take n forward)
      ⊎ ((4 ≤ n)
          × ((previous : String) × (calls ≡ take n forward ++ (rollback_call previous ∷ [])))))

-- Nothing is staged yet, or staging was called.
abbrev pub Phase : ℕ → Progress → Type 0
Phase n p = (p.stage ≡ none) ⊎ (4 ≤ n)

module _ {W : Type 0} (py : Platform) (F : PromotionFacility W) (rq : Request)
    (tree : RenderedTree) where
  abbrev World : Type 0
  World = W × List Call

  read_back-world :
      (previous : String) (findings : List Finding) (live : Option LiveState)
      (r : Result LiveState × World)
      → (read_back py (journal F) rq tree previous findings live r).1 ≡ r.1
  unfolding read_back
  read_back-world previous findings live (raised e, w) = refl
  read_back-world previous findings live (ok read, w) = elim (Bool-cases (is_none read.rollback)) [
    | inl silent ↦ rw silent refl
    | inr spoken ↦ rw spoken refl
  ]

  restore-Ordered :
      (n : ℕ) (o : Option String) (findings : List Finding) (live : Option LiveState) (w : World)
      → w.1 ≡ take n forward
      → 4 ≤ n
      → Ordered (restore py (journal F) rq tree o findings live w).1.1
  unfolding restore
  restore-Ordered n none findings live w at late = (n, inl at)
  restore-Ordered n (some previous) findings live (w, calls) at late =
      rw (read_back-world previous findings live _)
        (n, inr (late, (previous, ap (λ cs. cs ++ (rollback_call previous ∷ [])) at)))

  settle-Ordered :
      (n : ℕ) (with_facility : Bool) (p : Progress) (findings : List Finding) (w : World)
      → w.1 ≡ take n forward
      → Phase n p
      → Ordered (settle py (journal F) rq tree with_facility p findings w).1.1
  unfolding settle
  settle-Ordered n with_facility p findings w at (inl e) = simp (e, settle) (n, inl at)
  settle-Ordered n with_facility p findings w at (inr late) = elim (Option-cases p.stage) [
    | inl e ↦ simp (e, settle) (n, inl at)
    | inr (s, e) ↦ elim (Bool-cases (ltb rollback_from (length p.reached) && with_facility)) [
      | inl b ↦ simp (e, b, settle) (restore-Ordered n s.previous findings p.live w at late)
      | inr b ↦ simp (e, b, settle) (n, inl at)
    ]
  ]

  pub stop-Ordered :
      (n : ℕ) (with_facility : Bool) (p : Progress) (findings : List Finding)
      (v : Option Verification) (w : World)
      → w.1 ≡ take n forward
      → Phase n p
      → Ordered (stop py (journal F) rq tree with_facility p findings v w).1.1
  unfolding stop conclude
  stop-Ordered n with_facility p findings v w at phase =
      settle-Ordered n with_facility p findings w at phase
