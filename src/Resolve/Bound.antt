-- ===== src/Resolve/Bound.antt =====
-- What one round of each loop of `resolution_findings` checks, and that the lookup of `resolve` then
-- succeeds.
use dotmac_observability.Prelude.{
  ℕ, ◌≤◌, ◌≡◌, ◌⊎◌, refl, sym, ap, ◌∙◌, String, Bool, true, not, Option, none, some, Option-cases,
  inl, inr, List, [], ◌∷◌, append-eq-nil, arith, length, is_none, eqb, Dict, lookup, has_key,
}
use Prim.Native.String.{◌++◌ as ◌<>◌}
use dotmac_observability.Result.{ok, ok-injective}
use dotmac_observability.Model.{
  TargetBinding, FederationBinding, ReceiverBinding, ScrapeJob, Publication, Federation,
  Integration, SecretFile, ResolvedEndpoint, GrafanaDatasource, ResolvedDatasource,
}
use dotmac_observability.LiveVerify.Targets.{subscript}
use dotmac_observability.Resolve.Endpoints.{
  authentication_findings, expectation_findings, resolved_findings, binding_findings,
  job_resolution, datasource_endpoints, datasource_findings, federation_findings, job_location,
}
use dotmac_observability.Resolve.Receivers.{integration_findings}
use dotmac_observability.Resolve.Join.{resolve_one, resolve_datasource, first_endpoint}

pub subscript-lookup {ℓ} :
    {V : Type ℓ} (d : Dict V) (k : String) {v : V} → lookup k d ≡ some v → subscript d k ≡ ok v
unfolding subscript
subscript-lookup d k e = rw (e, subscript) refl

-- The job resolves to at least as many endpoints as it expects, with a credential exactly if it
-- declares authentication.
pub record Served (targets : Dict TargetBinding) (job : ScrapeJob) : Type 0 where
  pub endpoint : ResolvedEndpoint
  pub resolves : resolve_one targets job job.publication ≡ ok endpoint
  pub enough : (n : ℕ) → job.expected ≡ some n → n ≤ length endpoint.endpoints
  pub authenticated : is_none endpoint.credential ≡ not job.authenticated

authenticated_of_nil :
    (a : Bool) (c : Option SecretFile) (location : String)
    → authentication_findings a c location ≡ []
    → is_none c ≡ not a
unfolding authentication_findings
authenticated_of_nil a c location h = ground arith

enough_of_nil :
    (job : ScrapeJob) (es : List String)
    → expectation_findings job es ≡ []
    → (n : ℕ) → job.expected ≡ some n
    → n ≤ length es
unfolding expectation_findings
enough_of_nil job es h n e = ground (arith, rw e at h)

Served-of_jobs :
    (targets : Dict TargetBinding) (job : ScrapeJob) (e : ResolvedEndpoint)
    → resolve_one targets job job.publication ≡ ok e
    → resolved_findings job e.endpoints e.credential ≡ []
    → Served targets job
unfolding resolved_findings
Served-of_jobs targets job e r h =
    let (auth, expect) = (append-eq-nil _ _).0 h in
    record {
      endpoint = e;
      resolves = r;
      enough = enough_of_nil job e.endpoints expect;
      authenticated = authenticated_of_nil job.authenticated e.credential (job_location job) auth;
    }

resolve_one_of_binding :
    (targets : Dict TargetBinding) (job : ScrapeJob) (b : TargetBinding)
    → lookup job.target_id targets ≡ some b
    → resolve_one targets job none
      ≡ ok (record { endpoints = b.endpoints; credential = b.credential })
unfolding resolve_one
resolve_one_of_binding targets job b f = rw (subscript-lookup targets job.target_id f) refl

Served-of_binding :
    (targets : Dict TargetBinding) (job : ScrapeJob) (p : Option Publication)
    (b : Option TargetBinding)
    → job.publication ≡ p
    → lookup job.target_id targets ≡ b
    → binding_findings job p b ≡ []
    → Served targets job
unfolding binding_findings resolve_one
Served-of_binding targets job none none e f h = absurd (cc)
Served-of_binding targets job none (some b) e f h =
    Served-of_jobs targets job _
      (ap (resolve_one targets job) e ∙ resolve_one_of_binding targets job b f) h
Served-of_binding targets job (some p) none e f h =
    Served-of_jobs targets job (record { endpoints = p.endpoints; credential = none })
      (ap (resolve_one targets job) e) h
Served-of_binding targets job (some p) (some b) e f h = absurd (cc)

-- One job without findings.
pub Served-of_nil :
    (targets : Dict TargetBinding) (job : ScrapeJob)
    → job_resolution targets job ≡ []
    → Served targets job
unfolding job_resolution
Served-of_nil targets job h =
    Served-of_binding targets job job.publication (lookup job.target_id targets) refl refl h

pub bound_of_federation :
    (federations : Dict FederationBinding) (f : Federation)
    → federation_findings federations f ≡ []
    → (b : FederationBinding) × (lookup f.target_id federations ≡ some b)
      × (is_none b.credential ≡ not f.source.authenticated)
unfolding federation_findings
bound_of_federation federations f h = elim (Option-cases (lookup f.target_id federations)) [
  | inl absent ↦ absurd (cc (rw (absent, federation_findings) at h))
  | inr (b, e) ↦ (
    b,
    e,
    authenticated_of_nil f.source.authenticated b.credential _ (rw (e, federation_findings) at h),
  )
]

pub bound_of_integration :
    (receivers : Dict ReceiverBinding) (location : String) (i : Integration)
    → integration_findings receivers location i ≡ []
    → (b : ReceiverBinding) × (lookup i.credential_ref receivers ≡ some b)
unfolding integration_findings
bound_of_integration receivers location i h =
    elim (Option-cases (lookup i.credential_ref receivers)) [
      | inl absent ↦ absurd (cc (rw (absent, integration_findings) at h))
      | inr (b, e) ↦ (b, e)
    ]

first_of_one :
    (es : List String)
    → eqb (length es) 1 ≡ true
    → (e : String) × (first_endpoint es ≡ ok e) × (es ≡ e ∷ [])
unfolding first_endpoint
first_of_one [] h = absurd (ground arith)
first_of_one (e ∷ []) h = (e, refl, refl)
first_of_one (e ∷ f ∷ es) h = absurd (ground arith)

-- A declared datasource that resolves to one endpoint.
one_endpoint :
    (targets : Dict TargetBinding) (job : ScrapeJob)
    → eqb (length (datasource_endpoints targets job)) 1 ≡ true
    → (e : ResolvedEndpoint) × (resolve_one targets job job.publication ≡ ok e)
      × (eqb (length e.endpoints) 1 ≡ true)
unfolding datasource_endpoints resolve_one
one_endpoint targets job h = elim (Option-cases job.publication) [
  | inr (p, e) ↦ (
    record { endpoints = p.endpoints; credential = none },
    ap (resolve_one targets job) e,
    rw (e, datasource_endpoints) at h,
  )
  | inl e ↦ elim (Option-cases (lookup job.target_id targets)) [
    | inl absent ↦ absurd (cc (rw (e, absent, datasource_endpoints) at h))
    | inr (b, f) ↦ (
      record { endpoints = b.endpoints; credential = b.credential },
      ap (resolve_one targets job) e ∙ resolve_one_of_binding targets job b f,
      rw (e, f, datasource_endpoints) at h,
    )
  ]
]

-- What a job's endpoints are: the publication's, without a credential, or those of its binding.
abbrev pub Sourced : Dict TargetBinding → ScrapeJob → ResolvedEndpoint → Type 0
Sourced targets job e =
    ((p : Publication) × (job.publication ≡ some p)
      × (e ≡ record { endpoints = p.endpoints; credential = none }))
    ⊎ ((b : TargetBinding) × (job.publication ≡ none)
        × (lookup job.target_id targets ≡ some b)
        × (e ≡ record { endpoints = b.endpoints; credential = b.credential }))

pub resolve_one-Sourced :
    (targets : Dict TargetBinding) (job : ScrapeJob) (e : ResolvedEndpoint)
    → resolve_one targets job job.publication ≡ ok e
    → Sourced targets job e
unfolding resolve_one subscript
resolve_one-Sourced targets job e h = elim (Option-cases job.publication) [
  | inr (p, q) ↦ inl (p, q, ok-injective (sym h ∙ ap (resolve_one targets job) q))
  | inl q ↦ elim (Option-cases (lookup job.target_id targets)) [
    | inl absent ↦ absurd (cc (rw (q, absent, resolve_one, subscript) at h))
    | inr (b, f) ↦ inr (
      b,
      q,
      f,
      ok-injective
          (sym h ∙ ap (resolve_one targets job) q ∙ resolve_one_of_binding targets job b f),
    )
  ]
]

-- The URL of a datasource: its job's scheme, in front of the first of its job's endpoints.
abbrev pub Located :
    Dict TargetBinding → Dict ScrapeJob → GrafanaDatasource → ResolvedDatasource → Type 0
Located targets by_target source d =
    (t : String) × (source.target_id ≡ some t)
    × ((job : ScrapeJob) × (lookup t by_target ≡ some job)
        × (e : ResolvedEndpoint) × Sourced targets job e
        × (url : String) × (e.endpoints ≡ url ∷ [])
        × (d.url ≡ job.scheme <> "://" <> url))

-- One datasource without findings, whose target is declared.
pub datasource_resolves :
    (targets : Dict TargetBinding) (by_target : Dict ScrapeJob) (source : GrafanaDatasource)
    (t : String)
    → datasource_findings targets by_target source ≡ []
    → source.target_id ≡ some t
    → has_key t by_target ≡ true
    → (d : ResolvedDatasource) × (resolve_datasource targets by_target t ≡ ok d)
      × Located targets by_target source d
unfolding datasource_findings resolve_datasource
datasource_resolves targets by_target source t h s k = elim (Option-cases (lookup t by_target)) [
  | inl absent ↦ absurd (ground (arith, k, absent))
  | inr (job, e) ↦
      let one : eqb (length (datasource_endpoints targets job)) 1 ≡ true =
        ground (arith, rw (s, e, datasource_findings) at h) in
      let (r, p, q) = one_endpoint targets job one in
      let (url, u, only) = first_of_one r.endpoints q in
      (
        record { url = job.scheme <> "://" <> url },
        rw (subscript-lookup by_target t e, resolve_datasource, p, u) refl,
        (t, s, (job, e, r, resolve_one-Sourced targets job r p, url, only, refl)),
      )
]
