-- ===== src/LiveVerify/Delivery/Delivered.antt =====
-- When condition 4 finds nothing.
use dotmac_observability.Prelude.{
  String, ◌≡◌, refl, ◌↔◌, ◌⊎◌, true, false, some, List, [], ◌∷◌, arith, eq_iff, inl, inr,
  Option-cases, is_none, not, ◌&&◌, when, is_nil, contains, All, All-iff, Dict, lookup, flat_map,
  flat_map-eq-nil, append-eq-nil,
}
use dotmac_observability.Finding.{Finding, Code}
use dotmac_observability.Model.{DesiredState}
use dotmac_observability.LiveVerify.Records.{LiveState, LiveCanary}
use dotmac_observability.LiveVerify.Delivery.{
  declared_routes, observed_routes, route_findings, receiver_names, canary_findings,
  delivery_findings,
}

-- Fired, delivered with a reference to where it was seen, recovered, at a declared receiver.
pub record CanaryProven (names : List String) (canary : LiveCanary) : Type 0 where
  pub fired : canary.fired ≡ true
  pub known : contains canary.receiver names ≡ true
  pub delivered : canary.delivered ≡ true
  pub evidence : is_none canary.receiver_evidence_ref ≡ false
  pub recovered : canary.recovered ≡ true

pub record DeliveryProven (state : DesiredState) (live : LiveState) : Type 0 where
  pub routes : All (λ kv. lookup kv.0 (observed_routes live) ≡ some kv.1) (declared_routes state)
  pub canary : CanaryProven (receiver_names state) live.canary

canary_findings-eq-nil :
    (names : List String) (canary : LiveCanary)
    → (canary_findings names canary ≡ []) ↔ CanaryProven names canary
unfolding canary_findings
canary_findings-eq-nil names canary = (λ h. ground arith, λ h. ground arith)

route_findings-eq-nil :
    (observed : Dict String) (kv : String × String)
    → (route_findings observed kv ≡ []) ↔ (lookup kv.0 observed ≡ some kv.1)
unfolding route_findings
route_findings-eq-nil observed kv = elim (Option-cases (lookup kv.0 observed)) [
  | inl absent ↦ rw absent (λ h. absurd (cc), λ h. absurd (cc))
  | inr (found, present) ↦ rw present (ground (arith, eq_iff found kv.1))
]

routes-eq-nil :
    (observed declared : Dict String)
    → (flat_map (route_findings observed) declared ≡ [])
      ↔ All (λ kv. lookup kv.0 observed ≡ some kv.1) declared
routes-eq-nil observed declared = (
  λ h. (All-iff _ _ (route_findings-eq-nil observed) declared).0 ((flat_map-eq-nil _ _).0 h),
  λ h. (flat_map-eq-nil _ _).1 ((All-iff _ _ (route_findings-eq-nil observed) declared).1 h),
)

-- Where no route was read, each declared one is missing.
routes_read :
    (observed declared : Dict String)
    → All (λ kv. lookup kv.0 observed ≡ some kv.1) declared
    → (is_nil declared ≡ true) ⊎ (is_nil observed ≡ false)
unfolding lookup
routes_read observed [] h = inl refl
routes_read [] (r ∷ rs) h = absurd (cc h.0)
routes_read (o ∷ os) (r ∷ rs) h = inr refl

unread_nil :
    (declared observed : Dict String)
    → (is_nil declared ≡ true) ⊎ (is_nil observed ≡ false)
    → when {A = Finding}
        (not (is_nil declared) && is_nil observed)
        (record { code = Code.routes_not_read; location = "live.routes" } ∷ [])
      ≡ []
unread_nil declared observed h = ground arith

-- Condition 4 finds nothing exactly when each declared route resolves live to its receiver, and
-- the canary fired to a declared receiver, was delivered with evidence, and recovered.
pub delivery_findings-eq-nil :
    (state : DesiredState) (live : LiveState)
    → (delivery_findings state live ≡ []) ↔ DeliveryProven state live
unfolding delivery_findings
delivery_findings-eq-nil state live =
    let declared = declared_routes state in
    let observed = observed_routes live in
    let canary = canary_findings-eq-nil (receiver_names state) live.canary in
    (
      λ h.
          let r = (append-eq-nil _ _).0 h in
          let q = (append-eq-nil _ _).0 r.0 in
          record { routes = (routes-eq-nil observed declared).0 q.1; canary = canary.0 r.1 },
      λ h. (append-eq-nil _ _).1 (
        (append-eq-nil _ _).1 (
          unread_nil declared observed (routes_read observed declared h.routes),
          (routes-eq-nil observed declared).1 h.routes,
        ),
        canary.1 h.canary,
      ),
    )
