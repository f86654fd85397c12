-- ===== src/Semantic/Named.antt =====
-- What scrape targets without findings are.
use dotmac_observability.Prelude.{
  String, false, ◌&&◌, ◌!=◌, ◌≡◌, ◌↔◌, refl, List, [], ◌∷◌, ◌++◌, map, when, when-eq-nil,
  append-eq-nil, contains, All, All-iff,
}
use dotmac_observability.Finding.{Code}
use dotmac_observability.Model.{DesiredState, ScrapeJob, Federation}
use dotmac_observability.Resolve.Endpoints.{all_jobs, job_location}
use dotmac_observability.Semantic.{
  is_missing, path_findings, federation_loop, seen_after, inventory_target_findings,
}
use dotmac_observability.Semantic.Distinct.{Distinct, Fresh, Fresh-Distinct, seen_loop-eq-nil}

abbrev pub job_names : DesiredState → List String
job_names state = map (λ (job : ScrapeJob). job.job) (all_jobs state)

-- No two jobs or federations share a name, no two federations a prefix, and each path that is not
-- the default one is explained.
pub record Named (state : DesiredState) : Type 0 where
  pub names : Distinct (job_names state ++ map (λ (f : Federation). f.name) state.federations)
  pub prefixes : Distinct (map (λ (f : Federation). f.rename_prefix) state.federations)
  pub paths :
      All
        (λ (job : ScrapeJob).
          (job.metrics_path != "/metrics" && is_missing job.path_rationale) ≡ false)
        (all_jobs state)

Fresh-append :
    (seen xs ys : List String)
    → Fresh seen (xs ++ ys) ↔ (Fresh seen xs × Fresh (seen_after seen xs) ys)
unfolding seen_after
Fresh-append seen [] ys = (λ h. (tt, h), λ h. h.1)
Fresh-append seen (x ∷ xs) ys =
    let r = Fresh-append (x ∷ seen) xs ys in
    (λ h. let q = r.0 h.1 in ((h.0, q.0), q.1), λ h. (h.0.0, r.1 (h.0.1, h.1)))

federation_loop-eq-nil :
    (names prefixes : List String) (fs : List Federation)
    → (federation_loop names prefixes fs ≡ []) ↔ (
        Fresh names (map (λ (f : Federation). f.name) fs)
        × Fresh prefixes (map (λ (f : Federation). f.rename_prefix) fs))
unfolding federation_loop
federation_loop-eq-nil names prefixes [] = (λ h. (tt, tt), λ h. refl)
federation_loop-eq-nil names prefixes (f ∷ fs) =
    let rest = federation_loop-eq-nil (f.name ∷ names) (f.rename_prefix ∷ prefixes) fs in
    (
      λ h.
          let (ab, c) =
            (append-eq-nil _ (federation_loop (f.name ∷ names) (f.rename_prefix ∷ prefixes) fs)).0
              h in
          let (a, b) = (append-eq-nil _ (when (contains f.rename_prefix prefixes) _)).0 ab in
          let q = rest.0 c in (((when-eq-nil _ _ _).0 a, q.0), ((when-eq-nil _ _ _).0 b, q.1)),
      λ h. (append-eq-nil _ (federation_loop (f.name ∷ names) (f.rename_prefix ∷ prefixes) fs)).1 (
        (append-eq-nil _ (when (contains f.rename_prefix prefixes) _)).1
            ((when-eq-nil _ _ _).1 h.0.0, (when-eq-nil _ _ _).1 h.1.0),
        rest.1 (h.0.1, h.1.1),
      ),
    )

paths-eq-nil :
    (jobs : List ScrapeJob)
    → All (λ job. path_findings job ≡ []) jobs
      ↔ All
          (λ (job : ScrapeJob).
            (job.metrics_path != "/metrics" && is_missing job.path_rationale) ≡ false)
          jobs
unfolding path_findings
paths-eq-nil jobs = All-iff _ _ (λ job. when-eq-nil _ _ _) jobs

-- The findings on scrape targets are empty exactly when no two jobs or federations share a name,
-- no two federations share a rename prefix, and every job whose metrics path is not the default
-- one has a rationale for it.
pub inventory_target_findings-Named :
    (state : DesiredState) → (inventory_target_findings state ≡ []) ↔ Named state
unfolding inventory_target_findings
inventory_target_findings-Named state =
    let jobs =
      seen_loop-eq-nil (λ (job : ScrapeJob). job.job)
        (λ (job : ScrapeJob). record { code = Code.job_duplicate; location = job_location job })
        path_findings [] (all_jobs state) in
    let feds = federation_loop-eq-nil (seen_after [] (job_names state)) [] state.federations in
    let split =
      Fresh-append [] (job_names state) (map (λ (f : Federation). f.name) state.federations) in
    let paths = paths-eq-nil (all_jobs state) in
    (
      λ h.
          let (a, b) =
            (append-eq-nil _
                (federation_loop (seen_after [] (job_names state)) [] state.federations)).0
              h in
          let (fresh, explained) = jobs.0 a in
          let (names, prefixes) = feds.0 b in
          record {
            names = (Fresh-Distinct _).0 (split.1 (fresh, names));
            prefixes = (Fresh-Distinct _).0 prefixes;
            paths = paths.0 explained;
          },
      λ n.
          let (fresh, names) = split.0 ((Fresh-Distinct _).1 n.names) in
          (append-eq-nil _
              (federation_loop (seen_after [] (job_names state)) [] state.federations)).1
            (jobs.1 (fresh, paths.1 n.paths), feds.1 (names, (Fresh-Distinct _).1 n.prefixes)),
    )
