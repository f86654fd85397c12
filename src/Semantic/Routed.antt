-- ===== src/Semantic/Routed.antt =====
-- What routing without findings is.
use Prim.Native.String.{◌++◌ as ◌<>◌}
use dotmac_observability.Prelude.{
  String, Bool, true, false, not, ◌&&◌, ◌==◌, ◌≡◌, ◌↔◌, refl, sym, ap, ◌∙◌, inl, inr, Option, some,
  List, [], ◌∷◌, ◌++◌, map, flat_map, flat_map-eq-nil, keep-eq-nil, when-eq-nil, append-eq-nil,
  contains, is_none, is_nil, All, All-iff, Bool-cases, Option-cases, Dict, lookup, has_key,
}
use mathlib.Core.Option.{some-injective}
use dotmac_observability.Finding.{Code}
use dotmac_observability.Model.{DesiredState, Receiver, Integration, Route, Smtp}
use dotmac_observability.Semantic.{is_missing}
use dotmac_observability.Semantic.Distinct.{Distinct, Fresh, Fresh-Distinct, seen_loop-eq-nil}
use dotmac_observability.Semantic.Routing.{
  receiver_location, declared_receivers, smtp_findings, seen_refs, silent_findings, receiver_loop,
  default_findings, undeclared_findings, route_loop, used_names, unused_receivers,
  undelivered_findings, matched_routes, severity_findings, routing_findings,
}

abbrev pub refs_of : List Receiver → List String
refs_of receivers =
    flat_map (λ (r : Receiver). map (λ (i : Integration). i.credential_ref) r.integrations)
      receivers

-- A receiver delivers somewhere or says why it does not, and has a mail relay where it needs one.
abbrev pub Spoken : Option Smtp → Receiver → Type 0
Spoken smtp r =
    All (λ (i : Integration). (i.kind == "email" && is_none smtp) ≡ false) r.integrations
    × ((is_nil r.integrations && is_missing r.null_policy) ≡ false)

-- A route to a declared receiver goes to one with integrations.
abbrev pub IsDelivered : Dict Receiver → Route → Type 0
IsDelivered declared route =
    (target : Receiver)
    → lookup route.receiver declared ≡ some target
    → is_nil target.integrations ≡ false

-- Some route names the severity, and each one that does delivers.
abbrev pub Lands : DesiredState → String → Type 0
Lands state severity =
    (is_nil (matched_routes ("severity=\"" <> severity <> "\"") state.routes) ≡ false)
    × All (IsDelivered (declared_receivers state))
        (matched_routes ("severity=\"" <> severity <> "\"") state.routes)

pub record Routed (state : DesiredState) : Type 0 where
  pub refs : Distinct (refs_of state.receivers)
  pub spoken : All (Spoken state.control_plane.smtp) state.receivers
  pub default : has_key state.defaults.receiver (declared_receivers state) ≡ true
  pub routes : Distinct (map (λ (r : Route). r.identifier) state.routes)
  pub declared :
      All (λ (r : Route). has_key r.receiver (declared_receivers state) ≡ true) state.routes
  pub used :
      All
        (λ name. contains name (used_names state) ≡ true)
        (map (λ kv. kv.0) (declared_receivers state))
  pub warning : Lands state "warning"
  pub critical : Lands state "critical"

Fresh-refs :
    (seen : List String) (is : List Integration) (more : List String)
    → Fresh seen (map (λ (i : Integration). i.credential_ref) is ++ more) ↔ (
        Fresh seen (map (λ (i : Integration). i.credential_ref) is)
        × Fresh (seen_refs seen is) more)
unfolding seen_refs
Fresh-refs seen [] more = (λ h. (tt, h), λ h. h.1)
Fresh-refs seen (i ∷ is) more =
    let r = Fresh-refs (i.credential_ref ∷ seen) is more in
    (λ h. let q = r.0 h.1 in ((h.0, q.0), q.1), λ h. (h.0.0, r.1 (h.0.1, h.1)))

integrations-eq-nil :
    (smtp : Option Smtp) (location : String) (is : List Integration)
    → All (λ i. smtp_findings smtp location i ≡ []) is
      ↔ All (λ (i : Integration). (i.kind == "email" && is_none smtp) ≡ false) is
unfolding smtp_findings
integrations-eq-nil smtp location is = All-iff _ _ (λ i. when-eq-nil _ _ _) is

receiver_loop-eq-nil :
    (smtp : Option Smtp) (seen : List String) (rs : List Receiver)
    → (receiver_loop smtp seen rs ≡ []) ↔ (Fresh seen (refs_of rs) × All (Spoken smtp) rs)
unfolding receiver_loop silent_findings
receiver_loop-eq-nil smtp seen [] = (λ h. (tt, tt), λ h. refl)
receiver_loop-eq-nil smtp seen (r ∷ rs) =
    let rest = receiver_loop-eq-nil smtp (seen_refs seen r.integrations) rs in
    let inner =
      seen_loop-eq-nil (λ (i : Integration). i.credential_ref)
        (λ i. record { code = Code.credential_ref_shared; location = receiver_location r })
        (smtp_findings smtp (receiver_location r)) seen r.integrations in
    let split = Fresh-refs seen r.integrations (refs_of rs) in
    let mail = integrations-eq-nil smtp (receiver_location r) r.integrations in
    (
      λ h.
          let (ab, c) =
            (append-eq-nil _ (receiver_loop smtp (seen_refs seen r.integrations) rs)).0 h in
          let (a, b) = (append-eq-nil _ (silent_findings r)).0 ab in
          let (fresh, mails) = inner.0 a in
          let (others, spoken) = rest.0 c in
          (split.1 (fresh, others), ((mail.0 mails, (when-eq-nil _ _ _).0 b), spoken)),
      λ h.
          let (fresh, others) = split.0 h.0 in
          (append-eq-nil _ (receiver_loop smtp (seen_refs seen r.integrations) rs)).1 (
            (append-eq-nil _ (silent_findings r)).1
                (inner.1 (fresh, mail.1 h.1.0.0), (when-eq-nil _ _ _).1 h.1.0.1),
            rest.1 (others, h.1.1),
          ),
    )

not-false : (b : Bool) → (not b ≡ false) ↔ (b ≡ true)
not-false true = (λ h. refl, λ h. refl)
not-false false = (λ h. absurd (cc), λ h. absurd (cc))

route_loop-eq-nil :
    (state : DesiredState)
    → (route_loop state ≡ []) ↔ (
        Distinct (map (λ (r : Route). r.identifier) state.routes)
        × All (λ (r : Route). has_key r.receiver (declared_receivers state) ≡ true) state.routes)
unfolding route_loop undeclared_findings
route_loop-eq-nil state =
    let loop =
      seen_loop-eq-nil (λ (r : Route). r.identifier) _
        (undeclared_findings (declared_receivers state)) [] state.routes in
    let known =
      All-iff (λ r. undeclared_findings (declared_receivers state) r ≡ [])
        (λ (r : Route). has_key r.receiver (declared_receivers state) ≡ true)
        (λ r. (
          λ h. (not-false _).0 ((when-eq-nil _ _ _).0 h),
          λ h. (when-eq-nil _ _ _).1 ((not-false _).1 h),
        ))
        state.routes in
    (
      λ h. let q = loop.0 h in ((Fresh-Distinct _).0 q.0, known.0 q.1),
      λ h. loop.1 ((Fresh-Distinct _).1 h.0, known.1 h.1),
    )

map-eq-nil {ℓ κ} : {A : Type ℓ} {B : Type κ} (f : A → B) (xs : List A) → (map f xs ≡ []) ↔ (xs ≡ [])
map-eq-nil f [] = (λ h. refl, λ h. refl)
map-eq-nil f (x ∷ xs) = (λ h. absurd (cc), λ h. absurd (cc))

unused_receivers-eq-nil :
    (state : DesiredState)
    → (unused_receivers state ≡ [])
      ↔ All
          (λ name. contains name (used_names state) ≡ true)
          (map (λ kv. kv.0) (declared_receivers state))
unfolding unused_receivers
unused_receivers-eq-nil state =
    let k =
      keep-eq-nil (λ name. not (contains name (used_names state)))
        (map (λ kv. kv.0) (declared_receivers state)) in
    let a =
      All-iff _ _ (λ name. not-false (contains name (used_names state)))
        (map (λ kv. kv.0) (declared_receivers state)) in
    (λ h. a.0 (k.0 ((map-eq-nil _ _).0 h)), λ h. (map-eq-nil _ _).1 (k.1 (a.1 h)))

undelivered-eq-nil :
    (declared : Dict Receiver) (route : Route)
    → (undelivered_findings declared route ≡ []) ↔ IsDelivered declared route
unfolding undelivered_findings
undelivered-eq-nil declared route = elim (Option-cases (lookup route.receiver declared)) [
  | inl p ↦ (λ h target q. absurd (cc (p, q)), λ h. rw (p, undelivered_findings) refl)
  | inr (target, p) ↦ (
    λ h other q.
        let same : target ≡ other = some-injective target other (sym p ∙ q) in
        ap (λ (r : Receiver). is_nil r.integrations) (sym same)
        ∙ (when-eq-nil _ _ _).0 (rw (p, undelivered_findings) at h),
    λ h. rw (p, undelivered_findings) ((when-eq-nil _ _ _).1 (h target p)),
  )
]

severity-Lands :
    (state : DesiredState) (severity : String)
    → (severity_findings state severity ≡ []) ↔ Lands state severity
unfolding severity_findings
severity-Lands state severity =
    let routes = matched_routes ("severity=\"" <> severity <> "\"") state.routes in
    let f = flat_map-eq-nil (undelivered_findings (declared_receivers state)) routes in
    let a = All-iff _ _ (undelivered-eq-nil (declared_receivers state)) routes in
    elim (Bool-cases (is_nil routes)) [
      | inl empty ↦ rw (empty, severity_findings) (λ h. absurd (cc), λ h. absurd (cc h.0))
      | inr some_route ↦
          rw (some_route, severity_findings) (λ h. (refl, a.0 (f.0 h)), λ h. f.1 (a.1 h.1))
    ]

-- routing_findings finds nothing exactly when no credential reference is used twice, every
-- receiver has integrations or says why it has none, email integrations have a mail relay, the
-- default and every route go to a declared receiver, no two routes share an identifier, every
-- declared receiver is reached, and for each of warning and critical some route matches it and
-- every one that does goes to a receiver with integrations, if to a declared one.
pub routing_findings-Routed : (state : DesiredState) → (routing_findings state ≡ []) ↔ Routed state
unfolding routing_findings default_findings
routing_findings-Routed state =
    let receivers = receiver_loop-eq-nil state.control_plane.smtp [] state.receivers in
    (
      λ h.
          let (h5, critical) = (append-eq-nil _ (severity_findings state "critical")).0 h in
          let (h4, warning) = (append-eq-nil _ (severity_findings state "warning")).0 h5 in
          let (h3, unused) = (append-eq-nil _ (unused_receivers state)).0 h4 in
          let (h2, routes) = (append-eq-nil _ (route_loop state)).0 h3 in
          let (h1, default) = (append-eq-nil _ (default_findings state)).0 h2 in
          let (refs, spoken) = receivers.0 h1 in
          let (ids, declared) = (route_loop-eq-nil state).0 routes in
          record {
            refs = (Fresh-Distinct _).0 refs;
            spoken = spoken;
            default = (not-false _).0 ((when-eq-nil _ _ _).0 default);
            routes = ids;
            declared = declared;
            used = (unused_receivers-eq-nil state).0 unused;
            warning = (severity-Lands state "warning").0 warning;
            critical = (severity-Lands state "critical").0 critical;
          },
      λ r. (append-eq-nil _ (severity_findings state "critical")).1 (
        (append-eq-nil _ (severity_findings state "warning")).1 (
          (append-eq-nil _ (unused_receivers state)).1 (
            (append-eq-nil _ (route_loop state)).1 (
              (append-eq-nil _ (default_findings state)).1 (
                receivers.1 ((Fresh-Distinct _).1 r.refs, r.spoken),
                (when-eq-nil _ _ _).1 ((not-false _).1 r.default),
              ),
              (route_loop-eq-nil state).1 (r.routes, r.declared),
            ),
            (unused_receivers-eq-nil state).1 r.used,
          ),
          (severity-Lands state "warning").1 r.warning,
        ),
        (severity-Lands state "critical").1 r.critical,
      ),
    )
