-- ===== src/Resolve/Total.antt =====
-- What the resolution that `resolve` gives covers.
use dotmac_observability.Prelude.{
  ◌≡◌, ◌⊎◌, refl, false, some, List, [], ◌∷◌, inl, inr, Bool-cases, All, All-append, is_nil,
  is_nil-eq-true, append-eq-nil, flat_map-eq-nil, lookup,
}
use dotmac_observability.Result.{ok, raised, inventory_error}
use dotmac_observability.Model.{
  DesiredState, PrivateInventory, Resolution, Integration, Receiver, ReceiverBinding,
}
use dotmac_observability.Resolve.Endpoints.{
  all_jobs, target_bindings, federation_bindings, jobs_by_target, job_resolution,
  datasource_findings, federation_findings,
}
use dotmac_observability.Resolve.Receivers.{receiver_bindings, receiver_findings, all_integrations}
use dotmac_observability.Resolve.SourceSets.{set_bindings}
use dotmac_observability.Resolve.Findings.{endpoint_findings, resolution_findings}
use dotmac_observability.Resolve.Join.{resolve_lookups, resolve}
use dotmac_observability.Resolve.Bound.{Located, Served-of_nil, bound_of_integration}
use dotmac_observability.Resolve.Filled.{Filled}
use dotmac_observability.Resolve.Loops.{
  IsDeclared, job_name, source_name, federation_name, reference, targeted, JobHeld, FederationHeld,
  IntegrationHeld, resolve_jobs-total, resolve_datasources-total, resolve_federations-total,
  resolve_integrations-total,
}

-- What the public gate checks of the datasources.
abbrev pub DatasourcesDeclared : DesiredState → Type 0
DatasourcesDeclared state =
    All (IsDeclared (jobs_by_target (all_jobs state))) state.bundle.grafana.datasources

-- Each dictionary of the resolution has exactly the entries that the declarations give, the later
-- of two of the same name, and nothing else.
pub record Covers (state : DesiredState) (inventory : PrivateInventory) (r : Resolution)
    : Type 0 where
  pub inventory_kept : r.inventory ≡ inventory
  pub jobs : Filled job_name (JobHeld (target_bindings inventory)) (all_jobs state) [] r.jobs
  pub datasources :
      Filled source_name
        (Located (target_bindings inventory) (jobs_by_target (all_jobs state)))
        (targeted state.bundle.grafana.datasources)
        []
        r.datasources
  pub federations :
      Filled federation_name
        (FederationHeld (federation_bindings inventory))
        state.federations
        []
        r.federations
  pub integrations :
      Filled reference
        (IntegrationHeld (receiver_bindings inventory))
        (all_integrations state.receivers)
        []
        r.integrations

All-imp {ℓ κ κ'} :
    {A : Type ℓ} (P : A → Type κ) (Q : A → Type κ')
    → ((a : A) → P a → Q a)
    → (xs : List A) → All P xs
    → All Q xs
All-imp P Q f [] h = tt
All-imp P Q f (x ∷ xs) h = (f x h.0, All-imp P Q f xs h.1)

-- The integrations of all receivers are bound.
integrations_bound :
    (inventory : PrivateInventory) (receivers : List Receiver)
    → All (λ r. receiver_findings (receiver_bindings inventory) r ≡ []) receivers
    → All
        (λ (i : Integration).
          (b : ReceiverBinding) × (lookup i.credential_ref (receiver_bindings inventory) ≡ some b))
        (all_integrations receivers)
unfolding receiver_findings all_integrations
integrations_bound inventory [] h = tt
integrations_bound inventory (r ∷ rs) h = (All-append _ r.integrations (all_integrations rs)).1 (
  All-imp _ _ (bound_of_integration (receiver_bindings inventory) _) r.integrations
      ((flat_map-eq-nil _ _).0 h.0),
  integrations_bound inventory rs h.1,
)

-- What the parts of an empty list of findings say.
parts_of_nil :
    (state : DesiredState) (inventory : PrivateInventory)
    → resolution_findings state inventory ≡ []
    → All (λ job. job_resolution (target_bindings inventory) job ≡ []) (all_jobs state)
      × All
          (λ s.
            datasource_findings (target_bindings inventory) (jobs_by_target (all_jobs state)) s
            ≡ [])
          state.bundle.grafana.datasources
      × All (λ f. federation_findings (federation_bindings inventory) f ≡ []) state.federations
      × All (λ r. receiver_findings (receiver_bindings inventory) r ≡ []) state.receivers
unfolding resolution_findings endpoint_findings
parts_of_nil state inventory h =
    let (abcd, _) = (append-eq-nil _ _).0 h in
    let (abc, _) = (append-eq-nil _ _).0 abcd in
    let (ab, receivers) = (append-eq-nil _ _).0 abc in
    let (_, endpoints) = (append-eq-nil _ _).0 ab in
    let (two, federations) = (append-eq-nil _ _).0 endpoints in
    let (jobs, datasources) = (append-eq-nil _ _).0 two in
    (
      (flat_map-eq-nil _ _).0 jobs,
      (flat_map-eq-nil _ _).0 datasources,
      (flat_map-eq-nil _ _).0 federations,
      (flat_map-eq-nil _ _).0 receivers,
    )

resolve_lookups-total :
    (state : DesiredState) (inventory : PrivateInventory)
    → DatasourcesDeclared state
    → resolution_findings state inventory ≡ []
    → (r : Resolution) × (resolve_lookups state inventory ≡ ok r) × Covers state inventory r
unfolding resolve_lookups
resolve_lookups-total state inventory declared h =
    let (js, ds, fs, rs) = parts_of_nil state inventory h in
    let served = All-imp _ _ (Served-of_nil (target_bindings inventory)) (all_jobs state) js in
    let (jobs, e1, k1) =
      resolve_jobs-total (target_bindings inventory) (all_jobs state) [] served in
    let (datasources, e2, k2) =
      resolve_datasources-total (target_bindings inventory) (jobs_by_target (all_jobs state))
        state.bundle.grafana.datasources [] ds declared in
    let (federations, e3, k3) =
      resolve_federations-total (federation_bindings inventory) state.federations [] fs in
    let (integrations, e4, k4) =
      resolve_integrations-total (receiver_bindings inventory) (all_integrations state.receivers) []
        (integrations_bound inventory state.receivers rs) in
    (
      record {
        inventory = inventory;
        jobs = jobs;
        datasources = datasources;
        federations = federations;
        integrations = integrations;
        source_sets = set_bindings inventory;
      },
      rw (e1, e2, e3, e4) refl,
      record {
        inventory_kept = refl;
        jobs = k1;
        datasources = k2;
        federations = k3;
        integrations = k4;
      },
    )

-- Where every datasource that names a target names one that a job declares, one of two holds.
-- Either resolve finds nothing and returns a resolution that keeps the inventory and whose four
-- dictionaries have exactly these entries, of two declarations with the same name the last one's:
-- for each job the endpoints and the credential of its publication or else of its binding, at
-- least as many endpoints as it expects and a credential exactly if it is authenticated; for each
-- datasource with a target the URL of the one endpoint of a job with that target; for each
-- federation the endpoint and the credential of its binding, a credential exactly if it is
-- authenticated; for each integration the credential and the destination of its binding. Or it
-- finds something and raises an inventory error with exactly those findings; no lookup and no
-- index in it fails.
pub resolve-Covers :
    (state : DesiredState) (inventory : PrivateInventory)
    → DatasourcesDeclared state
    → ((resolution_findings state inventory ≡ [])
        × ((r : Resolution) × (resolve state inventory ≡ ok r) × Covers state inventory r))
      ⊎ ((is_nil (resolution_findings state inventory) ≡ false)
          × (resolve state inventory
              ≡ raised (inventory_error (resolution_findings state inventory))))
unfolding resolve
resolve-Covers state inventory declared =
    elim (Bool-cases (is_nil (resolution_findings state inventory))) [
      | inr some_found ↦ inr (some_found, rw (some_found, resolve) refl)
      | inl silent ↦
          let h = is_nil-eq-true _ silent in
          let (r, e, covers) = resolve_lookups-total state inventory declared h in
          inl (h, (r, rw (silent, resolve) e, covers))
    ]
