-- ===== src/Resolve/Verified.antt =====
-- What verification of a state that was resolved may raise.
use dotmac_observability.Prelude.{
  ℕ, ◌≡◌, refl, sym, ap, ◌∙◌, true, Option, none, some, Option-cases, List, [], ◌∷◌, inl, inr,
  Bool-cases, arith, All, All-append, is_nil, flat_map, Dict, lookup, has_key, insert,
}
use dotmac_observability.Result.{
  ok, raised, Exception, type_error, Result-cases, raised-injective, ok-injective,
}
use mathlib.Core.Path.{subst}
use dotmac_observability.Finding.{Finding, Code}
use dotmac_observability.Platform.{Platform, Instant}
use dotmac_observability.Model.{
  DesiredState, PrivateInventory, Resolution, ResolvedEndpoint, ScrapeJob, TargetSet,
}
use dotmac_observability.LiveVerify.Records.{LiveState}
use dotmac_observability.LiveVerify.Tree.{RenderedTree}
use dotmac_observability.LiveVerify.Targets.{
  expected_count, declare_jobs, declare_sets, declared_targets, target_findings, compare_targets,
  declare_federations,
}
use dotmac_observability.LiveVerify.Integrity.{
  replace_z, elapsed, window_findings, integrity_findings,
}
use dotmac_observability.LiveVerify.Verify.{Against, verify}
use dotmac_observability.Resolve.Endpoints.{all_jobs, target_bindings}
use dotmac_observability.Resolve.Bound.{subscript-lookup}
use dotmac_observability.Resolve.Join.{resolve}
use dotmac_observability.Resolve.Filled.{Filled-has_key}
use dotmac_observability.Resolve.Loops.{job_name, JobHeld}
use dotmac_observability.Resolve.Total.{Covers, DatasourcesDeclared, resolve-Covers}
use dotmac_observability.LiveVerify.Integrity.Dates.{Mixed, elapsed_raised}

declare_jobs-total :
    (jobs : Dict ResolvedEndpoint) (js : List ScrapeJob) (declared : Dict ℕ)
    → All (λ (job : ScrapeJob). has_key job.job jobs ≡ true) js
    → (d : Dict ℕ) × (declare_jobs jobs js declared ≡ ok d)
unfolding declare_jobs
declare_jobs-total jobs [] declared h = (declared, refl)
declare_jobs-total jobs (job ∷ js) declared h = elim (Option-cases (lookup job.job jobs)) [
  | inl absent ↦ absurd (ground (arith, absent, h.0))
  | inr (r, e) ↦
      let (d, p) =
        declare_jobs-total jobs js (insert job.job (expected_count job r) declared) h.1 in
      (d, rw (subscript-lookup jobs job.job e) p)
]

declare_sets-total :
    (jobs : Dict ResolvedEndpoint) (sets : List TargetSet) (declared : Dict ℕ)
    → All
        (λ (job : ScrapeJob). has_key job.job jobs ≡ true)
        (flat_map (λ (set : TargetSet). set.jobs) sets)
    → (d : Dict ℕ) × (declare_sets jobs sets declared ≡ ok d)
unfolding declare_sets
declare_sets-total jobs [] declared h = (declared, refl)
declare_sets-total jobs (set ∷ sets) declared h =
    let (here, there) = (All-append _ set.jobs _).0 h in
    let (d, p) = declare_jobs-total jobs set.jobs declared here in
    let (e, q) = declare_sets-total jobs sets d there in (e, rw p q)

-- The counts that condition 2 compares with are known.
target_findings-total :
    (state : DesiredState) (inventory : PrivateInventory) (r : Resolution) (live : LiveState)
    → Covers state inventory r
    → (fs : List Finding) × (target_findings state r live ≡ ok fs)
unfolding target_findings declared_targets all_jobs
target_findings-total state inventory r live c =
    let (d, e) =
      declare_sets-total r.jobs state.targets []
        (Filled-has_key job_name (JobHeld (target_bindings inventory)) _ r.jobs c.jobs) in
    elim (Bool-cases (is_nil live.targets)) [
      | inl empty ↦ (
        record { code = Code.targets_not_read; location = "live.targets" } ∷ [],
        rw (empty, target_findings) refl,
      )
      | inr listed ↦ (
        compare_targets (declare_federations state.federations d) live.targets,
        rw (listed, e, target_findings) refl,
      )
    ]

-- The dates of the two read-backs can be read, and one of them has no offset.
abbrev pub MixedDates : Platform → LiveState → Option LiveState → Type 0
MixedDates py live none = ⊥
MixedDates py live (some b) =
    (s t : Instant) × (py.fromisoformat (replace_z b.observed_at) ≡ some s)
    × (py.fromisoformat (replace_z live.observed_at) ≡ some t)
    × Mixed s t

integrity_raised :
    (py : Platform) (state : DesiredState) (live : LiveState) (baseline : Option LiveState)
    (e : Exception)
    → integrity_findings py state live baseline ≡ raised e
    → (e ≡ type_error) × MixedDates py live baseline
unfolding integrity_findings window_findings
integrity_raised py state live none e h = absurd (cc)
integrity_raised py state live (some b) e h =
    elim (Result-cases (elapsed py b.observed_at live.observed_at)) [
      | inl (d, p) ↦ absurd (cc (rw p at h))
      | inr (x, p) ↦
          let same : x ≡ e = raised-injective (rw p at h) in
          elapsed_raised py b.observed_at live.observed_at e (p ∙ ap raised same)
    ]

-- Of a state and the resolution that resolve returned for it, where every datasource that names a
-- target names one that a job declares, verify raises nothing but a type error, and only if a
-- baseline is given and one of the two observation dates has an offset from UTC and the other has
-- none.
pub verify-MixedDates :
    (py : Platform) (state : DesiredState) (inventory : PrivateInventory) (r : Resolution)
    (tree : RenderedTree) (live : LiveState) (against : Against) (e : Exception)
    → DatasourcesDeclared state
    → resolve state inventory ≡ ok r
    → verify py state r tree live against ≡ raised e
    → (e ≡ type_error) × MixedDates py live against.baseline
unfolding verify
verify-MixedDates py state inventory r tree live against e declared h v =
    elim (resolve-Covers state inventory declared) [
      | inr (_, refused) ↦ absurd (cc (h, refused))
      | inl (_, (r', h', covers)) ↦
          let c = subst (Covers state inventory) (ok-injective (sym h' ∙ h)) covers in
          let (fs, p) = target_findings-total state inventory r live c in
          elim (Result-cases (integrity_findings py state live against.baseline)) [
            | inl (is, q) ↦ absurd (cc (rw (p, q) at v))
            | inr (x, q) ↦
                let same : x ≡ e = raised-injective (rw (p, q) at v) in
                integrity_raised py state live against.baseline e (q ∙ ap raised same)
          ]
    ]
