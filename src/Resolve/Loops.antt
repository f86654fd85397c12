-- ===== src/Resolve/Loops.antt =====
-- The loops of `resolve`: what each puts into its dictionary, and that none of its lookups fails.
use mathlib.Core.Path.{subst}
use dotmac_observability.Prelude.{
  ℕ, ◌≤◌, ◌≡◌, refl, String, true, not, Option, none, some, Option-cases, inl, inr, List, [], ◌∷◌,
  length, is_none, All, Dict, lookup, has_key, insert, if◌then◌else◌,
}
use dotmac_observability.Result.{ok}
use dotmac_observability.Model.{
  TargetBinding, FederationBinding, ReceiverBinding, ScrapeJob, Federation, Integration,
  ResolvedEndpoint, ResolvedReceiver, GrafanaDatasource, ResolvedDatasource,
}
use dotmac_observability.Resolve.Endpoints.{datasource_findings, federation_findings}
use dotmac_observability.Resolve.Join.{
  resolve_jobs, resolve_datasources, resolve_federations, resolve_integrations,
}
use dotmac_observability.Resolve.Bound.{
  Served, Sourced, Located, subscript-lookup, resolve_one-Sourced, bound_of_federation,
  datasource_resolves,
}
use dotmac_observability.Resolve.Filled.{Filled, Filled-nil, Filled-cons}

abbrev pub job_name : ScrapeJob → String
job_name job = job.job

-- What the resolution holds of a job.
pub record JobHeld (targets : Dict TargetBinding) (job : ScrapeJob) (e : ResolvedEndpoint)
    : Type 0 where
  pub sourced : Sourced targets job e
  pub enough : (n : ℕ) → job.expected ≡ some n → n ≤ length e.endpoints
  pub authenticated : is_none e.credential ≡ not job.authenticated

JobHeld-of_Served :
    (targets : Dict TargetBinding) (job : ScrapeJob) (s : Served targets job)
    → JobHeld targets job s.endpoint
JobHeld-of_Served targets job s = record {
  sourced = resolve_one-Sourced targets job s.endpoint s.resolves;
  enough = s.enough;
  authenticated = s.authenticated;
}

-- What the loop over the jobs ends with.
pub resolve_jobs-total :
    (targets : Dict TargetBinding) (jobs : List ScrapeJob) (found : Dict ResolvedEndpoint)
    → All (Served targets) jobs
    → (d : Dict ResolvedEndpoint) × (resolve_jobs targets jobs found ≡ ok d)
      × Filled job_name (JobHeld targets) jobs found d
unfolding resolve_jobs
resolve_jobs-total targets [] found h = (found, refl, Filled-nil job_name (JobHeld targets) found)
resolve_jobs-total targets (job ∷ jobs) found h =
    let s = h.0 in
    let (d, e, filled) = resolve_jobs-total targets jobs (insert job.job s.endpoint found) h.1 in
    (
      d,
      rw s.resolves e,
      Filled-cons job_name (JobHeld targets) job s.endpoint jobs found d
          (JobHeld-of_Served targets job s) filled,
    )

abbrev pub federation_name : Federation → String
federation_name f = f.name

-- What the resolution holds of a federation.
pub record FederationHeld (federations : Dict FederationBinding) (f : Federation)
    (e : ResolvedEndpoint) : Type 0 where
  pub binding : FederationBinding
  pub bound : lookup f.target_id federations ≡ some binding
  pub endpoint : e.endpoints ≡ binding.endpoint ∷ []
  pub credential : e.credential ≡ binding.credential
  pub authenticated : is_none e.credential ≡ not f.source.authenticated

-- The loop over the federations.
pub resolve_federations-total :
    (federations : Dict FederationBinding) (fs : List Federation) (found : Dict ResolvedEndpoint)
    → All (λ f. federation_findings federations f ≡ []) fs
    → (d : Dict ResolvedEndpoint) × (resolve_federations federations fs found ≡ ok d)
      × Filled federation_name (FederationHeld federations) fs found d
unfolding resolve_federations
resolve_federations-total federations [] found h =
    (found, refl, Filled-nil federation_name (FederationHeld federations) found)
resolve_federations-total federations (f ∷ fs) found h =
    let (b, p, a) = bound_of_federation federations f h.0 in
    let e : ResolvedEndpoint = record { endpoints = b.endpoint ∷ []; credential = b.credential } in
    let held : FederationHeld federations f e = record {
      binding = b;
      bound = p;
      endpoint = refl;
      credential = refl;
      authenticated = a;
    } in
    let (d, r, filled) = resolve_federations-total federations fs (insert f.name e found) h.1 in
    (
      d,
      rw (subscript-lookup federations f.target_id p) r,
      Filled-cons federation_name (FederationHeld federations) f e fs found d held filled,
    )

abbrev pub reference : Integration → String
reference i = i.credential_ref

-- What the resolution holds of an integration.
pub record IntegrationHeld (receivers : Dict ReceiverBinding) (i : Integration)
    (e : ResolvedReceiver) : Type 0 where
  pub binding : ReceiverBinding
  pub bound : lookup i.credential_ref receivers ≡ some binding
  pub credential : e.credential ≡ binding.credential
  pub destination : e.destination ≡ binding.destination

-- The loop over the integrations.
pub resolve_integrations-total :
    (receivers : Dict ReceiverBinding) (is : List Integration) (found : Dict ResolvedReceiver)
    → All
        (λ (i : Integration). (b : ReceiverBinding) × (lookup i.credential_ref receivers ≡ some b))
        is
    → (d : Dict ResolvedReceiver) × (resolve_integrations receivers is found ≡ ok d)
      × Filled reference (IntegrationHeld receivers) is found d
unfolding resolve_integrations
resolve_integrations-total receivers [] found h =
    (found, refl, Filled-nil reference (IntegrationHeld receivers) found)
resolve_integrations-total receivers (i ∷ is) found h =
    let (b, p) = h.0 in
    let e : ResolvedReceiver = record { credential = b.credential; destination = b.destination } in
    let held : IntegrationHeld receivers i e = record {
      binding = b;
      bound = p;
      credential = refl;
      destination = refl;
    } in
    let (d, r, filled) =
      resolve_integrations-total receivers is (insert i.credential_ref e found) h.1 in
    (
      d,
      rw (subscript-lookup receivers i.credential_ref p) r,
      Filled-cons reference (IntegrationHeld receivers) i e is found d held filled,
    )

-- The target of a datasource, where it names one, is a declared job's.
abbrev pub IsDeclared : Dict ScrapeJob → GrafanaDatasource → Type 0
IsDeclared by_target source = (t : String) → source.target_id ≡ some t → has_key t by_target ≡ true

abbrev pub source_name : GrafanaDatasource → String
source_name source = source.name

-- The datasources that name a target.
unfoldable pub targeted : List GrafanaDatasource → List GrafanaDatasource
targeted [] = []
targeted (source ∷ sources) =
    if is_none source.target_id then targeted sources else source ∷ targeted sources

named {ℓ κ} :
    {V : Type ℓ} {A : Type κ} (o : Option V) (v : V) (x y : A)
    → o ≡ some v
    → y ≡ (if is_none o then x else y)
named none v x y h = absurd (cc)
named (some w) v x y h = refl

-- The loop over the datasources.
pub resolve_datasources-total :
    (targets : Dict TargetBinding) (by_target : Dict ScrapeJob) (sources : List GrafanaDatasource)
    (found : Dict ResolvedDatasource)
    → All (λ s. datasource_findings targets by_target s ≡ []) sources
    → All (IsDeclared by_target) sources
    → (d : Dict ResolvedDatasource) × (resolve_datasources targets by_target sources found ≡ ok d)
      × Filled source_name (Located targets by_target) (targeted sources) found d
unfolding resolve_datasources targeted
resolve_datasources-total targets by_target [] found h k =
    (found, refl, Filled-nil source_name (Located targets by_target) found)
resolve_datasources-total targets by_target (source ∷ sources) found h k =
    elim (Option-cases source.target_id) [
      | inl local ↦
          let (d, r, filled) = resolve_datasources-total targets by_target sources found h.1 k.1 in
          (d, rw (local, resolve_datasources) r, rw (local, targeted) filled)
      | inr (t, e) ↦
          let (u, p, held) = datasource_resolves targets by_target source t h.0 e (k.0 t e) in
          let (d, r, filled) =
            resolve_datasources-total targets by_target sources (insert source.name u found) h.1
              k.1 in
          (
            d,
            rw (e, p, resolve_datasources) r,
            subst (λ xs. Filled source_name (Located targets by_target) xs found d)
                (named source.target_id t (targeted sources) (source ∷ targeted sources) e)
                (Filled-cons source_name (Located targets by_target) source u (targeted sources)
                  found d held filled),
          )
    ]
