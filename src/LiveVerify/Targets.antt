-- ===== src/LiveVerify/Targets.antt =====
-- Condition 2 of live_verify.py: every declared target is healthy, every declared rule evaluates.
pub mod Healthy
pub mod Rules
use dotmac_observability.Prelude.{
  ℕ, String, Bool, not, ◌!=◌, Option, none, some, List, [], ◌∷◌, ◌++◌, flat_map, map, keep, when,
  is_nil, length, eqb, if◌then◌else◌, Dict, lookup, insert, has_key,
}
use dotmac_observability.Finding.{Finding, Code}
use dotmac_observability.Result.{Result, ok, raised, key_error, ◌>>=◌}
use dotmac_observability.Model.{
  DesiredState, Resolution, ResolvedEndpoint, ScrapeJob, TargetSet, Federation,
}
use dotmac_observability.LiveVerify.Records.{LiveState, LiveTarget}

-- `d[k]`.
unfoldable pub subscript {ℓ} : {V : Type ℓ} → Dict V → String → Result V
subscript d k = elim (lookup k d) [ none ↦ raised (key_error k) | some v ↦ ok v ]

-- `d.get(k, [])`.
unfoldable pub get_list {ℓ} : {A : Type ℓ} → String → Dict (List A) → List A
get_list k d = elim (lookup k d) [ none ↦ [] | some v ↦ v ]

-- `counted.setdefault(target.job, []).append(target)` over the targets.
unfoldable pub count_targets : List LiveTarget → Dict (List LiveTarget) → Dict (List LiveTarget)
count_targets [] counted = counted
count_targets (t ∷ ts) counted =
    count_targets ts (insert t.job (get_list t.job counted ++ (t ∷ [])) counted)

unfoldable pub expected_count : ScrapeJob → ResolvedEndpoint → ℕ
expected_count job resolved = elim job.expected [ none ↦ length resolved.endpoints | some n ↦ n ]

unfoldable pub declare_jobs : Dict ResolvedEndpoint → List ScrapeJob → Dict ℕ → Result (Dict ℕ)
declare_jobs jobs [] declared = ok declared
declare_jobs jobs (job ∷ rest) declared = do
  resolved ← subscript jobs job.job
  declare_jobs jobs rest (insert job.job (expected_count job resolved) declared)

unfoldable pub declare_sets : Dict ResolvedEndpoint → List TargetSet → Dict ℕ → Result (Dict ℕ)
declare_sets jobs [] declared = ok declared
declare_sets jobs (set ∷ sets) declared = do
  declared' ← declare_jobs jobs set.jobs declared
  declare_sets jobs sets declared'

unfoldable pub declare_federations : List Federation → Dict ℕ → Dict ℕ
declare_federations [] declared = declared
declare_federations (f ∷ fs) declared = declare_federations fs (insert f.name 1 declared)

-- How many targets each job must report.
unfoldable pub declared_targets : DesiredState → Resolution → Result (Dict ℕ)
declared_targets state resolution = do
  declared ← declare_sets resolution.jobs state.targets []
  ok (declare_federations state.federations declared)

unhealthy : List LiveTarget → List LiveTarget
unhealthy = keep (λ t. t.health != "up")

-- What one declared job's targets show.
unfoldable pub judge_job : String → ℕ → List LiveTarget → List Finding
unfolding unhealthy
judge_job job expected observed =
    if is_nil observed
    then record { code = Code.target_absent; location = job } ∷ []
    else when (not (eqb (length observed) expected))
        (record { code = Code.target_count; location = job } ∷ [])
      ++ when (not (is_nil (unhealthy observed)))
          (record { code = Code.target_unhealthy; location = job } ∷ [])

-- One round of the loop over the declared jobs.
unfoldable pub job_findings : Dict (List LiveTarget) → String × ℕ → List Finding
job_findings counted (job, expected) = judge_job job expected (get_list job counted)

unfoldable pub undeclared_job : Dict ℕ → String × List LiveTarget → List Finding
undeclared_job declared (job, ts) =
    when (not (has_key job declared))
      (record { code = Code.target_undeclared; location = job } ∷ [])

unfoldable pub compare_targets : Dict ℕ → List LiveTarget → List Finding
compare_targets declared targets =
    let counted = count_targets targets [] in
    flat_map (job_findings counted) declared ++ flat_map (undeclared_job declared) counted

unfoldable pub target_findings : DesiredState → Resolution → LiveState → Result (List Finding)
target_findings state resolution live =
    if is_nil live.targets
    then ok (record { code = Code.targets_not_read; location = "live.targets" } ∷ [])
    else do declared ← declared_targets state resolution; ok (compare_targets declared live.targets)
