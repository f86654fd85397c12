-- ===== src/Promote/Stop/Settles.antt =====
-- How a stopped promotion ends: failed with a reason, or rolled back to what staging captured.
use dotmac_observability.Prelude.{
  ◌<◌, ◌≡◌, refl, String, Bool, true, false, Option, none, some, List, [], ◌∷◌, ◌++◌, ◌⊎◌, inl, inr,
  ◌&&◌, arith, length, ltb, is_nil, is_none, ltb→lt, is_nil-append, Bool-cases, Option-cases,
}
use mathlib.Core.Path.{subst, sym}
use dotmac_observability.Finding.{Finding}
use dotmac_observability.Result.{Exception, Result, ok, raised}
use dotmac_observability.Platform.{Platform}
use dotmac_observability.LiveVerify.Records.{LiveState}
use dotmac_observability.LiveVerify.Tree.{RenderedTree}
use dotmac_observability.Receipt.{failed, rolled_back}
use dotmac_observability.Promote.Records.{
  rollback_from, StagedRelease, PromotionFacility, Request, Progress,
}
use dotmac_observability.Promote.Stop.{Settled, read_back, restore, settle}

-- The stop records no restored release.
pub record Unrestored (s : Settled) : Type 0 where
  pub outcome : s.outcome ≡ failed
  pub nowhere : s.rolled_back_to ≡ none

-- The facility was asked for the previous release, and its read-back has a rollback record.
pub record Restored {W : Type 0} (F : PromotionFacility W) (rq : Request) (w : W)
    (stage : StagedRelease) (q : Settled × W) : Type 0 where
  pub previous : String
  pub read : LiveState
  pub outcome : q.0.outcome ≡ rolled_back
  pub captured : stage.previous ≡ some previous
  pub rolled_back_to : q.0.rolled_back_to ≡ some previous
  pub observed : q.0.observed ≡ some read
  pub asked : F.rollback rq.named_target previous w ≡ (ok read, q.1)
  pub recorded : is_none read.rollback ≡ false

-- The facility was asked for the previous release, and raised or gave no rollback record.
pub record Unproven {W : Type 0} (F : PromotionFacility W) (rq : Request) (w : W)
    (stage : StagedRelease) (q : Settled × W) : Type 0 where
  pub previous : String
  pub unrestored : Unrestored q.0
  pub captured : stage.previous ≡ some previous
  pub answer :
      ((e : Exception) × (F.rollback rq.named_target previous w ≡ (raised e, q.1)))
      ⊎ ((read : LiveState) × (F.rollback rq.named_target previous w ≡ (ok read, q.1))
          × (is_none read.rollback ≡ true))

-- Why the facility is not asked.
pub data Idle (with_facility : Bool) (p : Progress) : Type 0 where
  unstaged : p.stage ≡ none → Idle with_facility p
  early : ltb rollback_from (length p.reached) && with_facility ≡ false → Idle with_facility p
  no_previous :
      (stage : StagedRelease) → p.stage ≡ some stage → stage.previous ≡ none → Idle with_facility p

and_left : (a b : Bool) → a && b ≡ true → a ≡ true
and_left a b h = ground arith

-- Something is reported of every stop.
abbrev pub Reported : List Finding → Type 0
Reported findings = is_nil findings ≡ false

-- The facility is left alone, for one of the reasons, or asked once STAGED was reached.
abbrev pub Settles :
    {W : Type 0} → PromotionFacility W → Request → Bool → Progress → W → Settled × W → Type 0
Settles F rq with_facility p w q =
    Reported q.0.extra
    × ((Unrestored q.0 × (q.1 ≡ w) × Idle with_facility p)
        ⊎ ((stage : StagedRelease) × (p.stage ≡ some stage)
            × (rollback_from < length p.reached)
            × (Unproven F rq w stage q ⊎ Restored F rq w stage q)))

Reported-append : (findings : List Finding) (f : Finding) → Reported (findings ++ (f ∷ []))
Reported-append findings f = is_nil-append f findings

module _ {W : Type 0} (py : Platform) (F : PromotionFacility W) (rq : Request)
    (tree : RenderedTree) where
  abbrev EndsStage : W → StagedRelease → Settled × W → Type 0
  EndsStage w stage q =
      Reported q.0.extra
      × ((Unrestored q.0 × (q.1 ≡ w) × (stage.previous ≡ none))
          ⊎ (Unproven F rq w stage q ⊎ Restored F rq w stage q))

  read_back-EndsStage :
      (stage : StagedRelease) (previous : String) (findings : List Finding)
      (live : Option LiveState) (w : W) (r : Result LiveState × W)
      → Reported findings
      → stage.previous ≡ some previous
      → F.rollback rq.named_target previous w ≡ r
      → EndsStage w stage (read_back py F rq tree previous findings live r)
  unfolding read_back
  read_back-EndsStage stage previous findings live w (raised e, w') n c a = (
    Reported-append findings _,
    inr (
        inl (record {
          previous = previous;
          unrestored = record { outcome = refl; nowhere = refl };
          captured = c;
          answer = inl (e, a);
        })),
  )
  read_back-EndsStage stage previous findings live w (ok read, w') n c a =
      elim (Bool-cases (is_none read.rollback)) [
        | inl silent ↦ rw silent (
          Reported-append findings _,
          inr (
              inl (record {
                previous = previous;
                unrestored = record { outcome = refl; nowhere = refl };
                captured = c;
                answer = inr (read, a, silent);
              })),
        )
        | inr spoken ↦ rw spoken (
          n,
          inr (
              inr (record {
                previous = previous;
                read = read;
                outcome = refl;
                captured = c;
                rolled_back_to = refl;
                observed = refl;
                asked = a;
                recorded = spoken;
              })),
        )
      ]

  restore-EndsStage :
      (stage : StagedRelease) (o : Option String) (findings : List Finding)
      (live : Option LiveState) (w : W)
      → Reported findings
      → stage.previous ≡ o
      → EndsStage w stage (restore py F rq tree o findings live w)
  unfolding restore
  restore-EndsStage stage none findings live w n c =
      (Reported-append findings _, inl (record { outcome = refl; nowhere = refl }, refl, c))
  restore-EndsStage stage (some previous) findings live w n c =
      read_back-EndsStage stage previous findings live w (F.rollback rq.named_target previous w) n c
        refl

  Settles-of_EndsStage :
      (with_facility : Bool) (p : Progress) (w : W) (stage : StagedRelease) (q : Settled × W)
      → p.stage ≡ some stage
      → rollback_from < length p.reached
      → EndsStage w stage q
      → Settles F rq with_facility p w q
  Settles-of_EndsStage with_facility p w stage q e late (n, inl (u, same, c)) =
      (n, inl (u, same, no_previous stage e c))
  Settles-of_EndsStage with_facility p w stage q e late (n, inr r) = (n, inr (stage, e, late, r))

  settle_late :
      (with_facility : Bool) (p : Progress) (findings : List Finding) (w : W)
      (stage : StagedRelease)
      → p.stage ≡ some stage
      → ltb rollback_from (length p.reached) && with_facility ≡ true
      → settle py F rq tree with_facility p findings w
        ≡ restore py F rq tree stage.previous findings p.live w
  unfolding settle
  settle_late with_facility p findings w stage e late = simp (e, late, settle)

  -- Given at least one finding, the decision of a stop has at least one finding, and one of three
  -- holds. It failed and left the facility's world as it was, since no release was staged, or at
  -- most three states were reached, or the stop was not handed the facility, or staging captured
  -- no previous release. Or the facility was asked to roll the named target back to the previous
  -- release that staging captured, and raised or gave a read-back without a rollback record: it
  -- failed. Or it was asked so and gave a read-back with a rollback record: it was rolled back to
  -- that release and keeps that read-back. The world is the one that the rollback left where it
  -- was asked for.
  pub settle-Settles :
      (with_facility : Bool) (p : Progress) (findings : List Finding) (w : W)
      → Reported findings
      → Settles F rq with_facility p w (settle py F rq tree with_facility p findings w)
  unfolding settle
  settle-Settles with_facility p findings w n = elim (Option-cases p.stage) [
    | inl no_stage ↦
        simp (no_stage, settle)
          (n, inl (record { outcome = refl; nowhere = refl }, refl, unstaged no_stage))
    | inr (stage, e) ↦ elim (Bool-cases (ltb rollback_from (length p.reached) && with_facility)) [
      | inr not_late ↦
          simp (e, not_late, settle)
            (n, inl (record { outcome = refl; nowhere = refl }, refl, early not_late))
      | inl late ↦
          let r =
            Settles-of_EndsStage with_facility p w stage _ e (ltb→lt _ _ (and_left _ _ late))
              (restore-EndsStage stage stage.previous findings p.live w n refl) in
          subst (Settles F rq with_facility p w)
            (sym (settle_late with_facility p findings w stage e late)) r
    ]
  ]
