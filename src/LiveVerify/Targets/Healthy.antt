-- ===== src/LiveVerify/Targets/Healthy.antt =====
-- When the comparison of the targets finds nothing.
use mathlib.Core.List.{append_assoc, append-nil}
use dotmac_observability.Prelude.{
  ℕ, ◌<◌, String, ◌≡◌, sym, ◌∙◌, ap, ◌↔◌, true, false, not, ◌==◌, ◌!=◌, List, [], ◌∷◌, ◌++◌, arith,
  eq_iff, inl, inr, Bool-cases, length, eqb, when, All, All-iff, keep, flat_map-eq-nil,
  append-eq-nil, when-is_nil, keep-eq-nil, Dict, lookup, insert, lookup-insert, has_key,
  if◌then◌else◌,
}
use mathlib.Core.Path.{subst}
use dotmac_observability.Finding.{Finding, Code}
use dotmac_observability.LiveVerify.Records.{LiveTarget}
use dotmac_observability.LiveVerify.Targets.{
  get_list, count_targets, judge_job, job_findings, undeclared_job, compare_targets,
}

-- The live targets of a job.
abbrev pub targets_of : String → List LiveTarget → List LiveTarget
targets_of job = keep (λ t. t.job == job)

-- As many targets as were declared, at least one, and all of them up.
abbrev pub JobHealthy : List LiveTarget → String × ℕ → Type 0
JobHealthy targets (job, expected) =
    (0 < expected)
    × (length (targets_of job targets) ≡ expected)
    × All (λ t. t.health ≡ "up") (targets_of job targets)

pub record TargetsHealthy (declared : Dict ℕ) (targets : List LiveTarget) : Type 0 where
  pub jobs : All (JobHealthy targets) declared
  pub known : All (λ t. has_key t.job declared ≡ true) targets

get_list-insert :
    (j k : String) (ts : List LiveTarget) (d : Dict (List LiveTarget))
    → get_list j (insert k ts d) ≡ (if k == j then ts else get_list j d)
unfolding get_list
get_list-insert j k ts d = rw (lookup-insert k j ts d, get_list) (ground arith)

-- Grouping by job is filtering by job.
get_list-count_targets :
    (j : String) (ts : List LiveTarget) (d : Dict (List LiveTarget))
    → get_list j (count_targets ts d) ≡ get_list j d ++ targets_of j ts
unfolding count_targets
get_list-count_targets j [] d = sym (append-nil _)
get_list-count_targets j (t ∷ ts) d =
    get_list-count_targets j ts (insert t.job (get_list t.job d ++ (t ∷ [])) d)
    ∙ rw (get_list-insert j t.job (get_list t.job d ++ (t ∷ [])) d)
        (elim (Bool-cases (t.job == j)) [
          | inl same ↦ rw same (
              ap (λ k. get_list k d ++ (t ∷ []) ++ targets_of j ts) ((eq_iff t.job j).0 same)
              ∙ append_assoc (get_list j d) (t ∷ []) (targets_of j ts))
          | inr other ↦ rw other
        ])

-- The keys of the groups are the jobs of the targets.
module _ (P : String → Type 0) where
  abbrev Keys : Dict (List LiveTarget) → Type 0
  Keys d = All (λ kv. P kv.0) d

  Keys-insert :
      (k : String) (ts : List LiveTarget) (d : Dict (List LiveTarget))
      → Keys (insert k ts d) ↔ (P k × Keys d)
  unfolding insert
  Keys-insert k ts [] = (λ h. h, λ h. h)
  Keys-insert k ts ((j, us) ∷ d) = elim (Bool-cases (j == k)) [
    | inl same ↦ rw same (λ h. (subst P ((eq_iff j k).0 same) h.0, h), λ h. h.1)
    | inr other ↦
        let r = Keys-insert k ts d in
        rw other (λ h. let q = r.0 h.1 in (q.0, (h.0, q.1)), λ h. (h.1.0, r.1 (h.0, h.1.1)))
  ]

  Keys-count_targets :
      (ts : List LiveTarget) (d : Dict (List LiveTarget))
      → Keys (count_targets ts d) ↔ (Keys d × All (λ t. P t.job) ts)
  unfolding count_targets
  Keys-count_targets [] d = (λ h. (h, tt), λ h. h.0)
  Keys-count_targets (t ∷ ts) d =
      let r = Keys-count_targets ts (insert t.job (get_list t.job d ++ (t ∷ [])) d) in
      let i = Keys-insert t.job (get_list t.job d ++ (t ∷ [])) d in
      (
        λ h. let q = r.0 h in let p = i.0 q.0 in (p.1, (p.0, q.1)),
        λ h. r.1 (i.1 (h.1.0, h.0), h.1.1),
      )

up_iff : (t : LiveTarget) → (t.health != "up" ≡ false) ↔ (t.health ≡ "up")
up_iff t = ground (arith, eq_iff t.health "up")

counted :
    (job : String) (n expected : ℕ)
    → when {A = Finding}
        (not (eqb n expected))
        (record { code = Code.target_count; location = job } ∷ [])
      ≡ []
    → n ≡ expected
counted job n expected h = ground arith

judge-eq-nil :
    (job : String) (expected : ℕ) (ts : List LiveTarget)
    → (judge_job job expected ts ≡ [])
      ↔ ((0 < expected) × (length ts ≡ expected) × All (λ t. t.health ≡ "up") ts)
unfolding judge_job
judge-eq-nil job expected [] = (λ h. absurd (cc), λ h. absurd (omega arith))
judge-eq-nil job expected (t ∷ ts) =
    let sick = keep (λ u. u.health != "up") (t ∷ ts) in
    let none_sick = keep-eq-nil (λ u. u.health != "up") (t ∷ ts) in
    let up = All-iff _ _ up_iff (t ∷ ts) in
    (
      λ h.
          let r = (append-eq-nil _ _).0 h in
          let size : length (t ∷ ts) ≡ expected = counted job (length (t ∷ ts)) expected r.0 in
          (omega (arith, size), size, up.0 (none_sick.0 ((when-is_nil _ sick).0 r.1))),
      λ h.
          (append-eq-nil _ _).1
            (ground (arith, h.1), (when-is_nil _ sick).1 (none_sick.1 (up.1 h.2))),
    )

observed_targets :
    (job : String) (targets : List LiveTarget)
    → get_list job (count_targets targets []) ≡ targets_of job targets
unfolding get_list lookup
observed_targets job targets = get_list-count_targets job targets []

job-eq-nil :
    (targets : List LiveTarget) (kv : String × ℕ)
    → (job_findings (count_targets targets []) kv ≡ []) ↔ JobHealthy targets kv
unfolding job_findings
job-eq-nil targets (job, expected) =
    rw (observed_targets job targets) (judge-eq-nil job expected (targets_of job targets))

undeclared-eq-nil :
    (declared : Dict ℕ) (kv : String × List LiveTarget)
    → (undeclared_job declared kv ≡ []) ↔ (has_key kv.0 declared ≡ true)
unfolding undeclared_job
undeclared-eq-nil declared (job, ts) = ground arith

-- Comparing the live targets with the declared counts finds nothing exactly when each entry of the
-- declared counts is positive and is the number of live targets of its job, all of them up, and
-- each live target's job is declared.
pub compare_targets-eq-nil :
    (declared : Dict ℕ) (targets : List LiveTarget)
    → (compare_targets declared targets ≡ []) ↔ TargetsHealthy declared targets
unfolding compare_targets
compare_targets-eq-nil declared targets =
    let counted = count_targets targets [] in
    let jobs = All-iff _ _ (job-eq-nil targets) declared in
    let others = All-iff _ _ (undeclared-eq-nil declared) counted in
    let keys = Keys-count_targets (λ k. has_key k declared ≡ true) targets [] in
    (
      λ h.
          let r = (append-eq-nil _ _).0 h in
          record {
            jobs = jobs.0 ((flat_map-eq-nil _ _).0 r.0);
            known = (keys.0 (others.0 ((flat_map-eq-nil _ _).0 r.1))).1;
          },
      λ h. (append-eq-nil _ _).1 (
        (flat_map-eq-nil _ _).1 (jobs.1 h.jobs),
        (flat_map-eq-nil _ _).1 (others.1 (keys.1 (tt, h.known))),
      ),
    )
