-- ===== src/LiveVerify/Rollback/Restored.antt =====
-- When condition 6 finds nothing.
use dotmac_observability.Prelude.{
  String, ◌≡◌, refl, ap, sym, ◌↔◌, Bool, true, false, Option, none, some, [], arith, eq_iff, inl,
  inr, Option-cases,
}
use mathlib.Core.Path.{subst}
use dotmac_observability.LiveVerify.Records.{LiveState, LiveRollback}
use dotmac_observability.LiveVerify.Rollback.{restore_findings, digest_findings, rollback_findings}

-- On a first promotion there is nothing to restore; after it, the previous digest came back.
abbrev pub RestoredPrevious : Bool → LiveRollback → Option String → Type 0
RestoredPrevious true r previous = Unit
RestoredPrevious false r previous =
    (release digest : String) × (r.restored_release ≡ some release)
    × (previous ≡ some digest)
    × (r.restored_digest ≡ some digest)

-- A rollback was exercised, it succeeded, and it restored what stood before.
abbrev pub RollbackProven : LiveState → Option String → Bool → Type 0
RollbackProven live previous first =
    (r : LiveRollback) × (live.rollback ≡ some r)
    × (r.exercised ≡ true)
    × (r.succeeded ≡ true)
    × RestoredPrevious first r previous

RestoredPrevious-of_nil :
    (current : String) (r : LiveRollback) (previous : Option String) (first : Bool)
    → restore_findings current (some r) previous first ≡ []
    → (r.exercised ≡ true) × (r.succeeded ≡ true) × RestoredPrevious first r previous
unfolding restore_findings digest_findings
RestoredPrevious-of_nil current r previous true h = (ground arith, ground arith, tt)
RestoredPrevious-of_nil current r none false h = absurd (ground arith)
RestoredPrevious-of_nil current r (some d) false h = elim (Option-cases r.restored_release) [
  | inl absent ↦ absurd (ground arith)
  | inr (release, p) ↦ elim (Option-cases r.restored_digest) [
    | inl absent ↦ absurd (ground arith)
    | inr (digest, q) ↦
        let same : d ≡ digest = ground (arith, eq_iff digest d) in
        (ground arith, ground arith, (release, digest, p, ap some same, q))
  ]
]

nil_of_RestoredPrevious :
    (current : String) (r : LiveRollback) (previous : Option String) (first : Bool)
    → r.exercised ≡ true
    → r.succeeded ≡ true
    → RestoredPrevious first r previous
    → restore_findings current (some r) previous first ≡ []
unfolding restore_findings digest_findings
nil_of_RestoredPrevious current r previous true e s h = ground arith
nil_of_RestoredPrevious current r previous false e s (release, digest, p, q, t) =
    ground (arith, eq_iff digest digest)

restore_findings-eq-nil :
    (current : String) (o : Option LiveRollback) (previous : Option String) (first : Bool)
    → (restore_findings current o previous first ≡ []) ↔ (
        (r : LiveRollback) × (o ≡ some r)
        × (r.exercised ≡ true)
        × (r.succeeded ≡ true)
        × RestoredPrevious first r previous)
restore_findings-eq-nil current none previous first =
    (unfold restore_findings in (λ h. absurd (cc)), λ h. absurd (cc h.1))
restore_findings-eq-nil current (some r) previous first = (
  λ h. let q = RestoredPrevious-of_nil current r previous first h in (r, refl, q.0, q.1, q.2),
  λ h.
      subst (λ o. restore_findings current o previous first ≡ []) (sym h.1)
        (nil_of_RestoredPrevious current h.0 previous first h.2 h.3 h.4),
)

-- Condition 6 finds nothing exactly when a rollback was exercised and succeeded and, unless this
-- is the first promotion, it restored a release whose digest is the recorded previous digest.
pub rollback_findings-eq-nil :
    (live : LiveState) (previous : Option String) (first : Bool)
    → (rollback_findings live previous first ≡ []) ↔ RollbackProven live previous first
unfolding rollback_findings
rollback_findings-eq-nil live previous first =
    restore_findings-eq-nil live.release.current live.rollback previous first
