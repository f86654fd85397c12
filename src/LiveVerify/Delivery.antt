-- ===== src/LiveVerify/Delivery.antt =====
-- Condition 4 of live_verify.py: the routes resolve, and the canary was delivered.
pub mod Delivered
use dotmac_observability.Prelude.{
  String, Bool, not, ◌&&◌, ◌==◌, Option, none, some, List, [], ◌∷◌, ◌++◌, map, flat_map, when,
  is_nil, is_none, if◌then◌else◌, Dict, lookup, from_pairs, contains,
}
use dotmac_observability.Finding.{Finding, Code}
use dotmac_observability.Model.{DesiredState, Route, Receiver}
use dotmac_observability.LiveVerify.Records.{LiveState, LiveRoute, LiveCanary}

unfoldable pub declared_routes : DesiredState → Dict String
declared_routes state = from_pairs (map (λ (r : Route). (r.identifier, r.receiver)) state.routes)

unfoldable pub observed_routes : LiveState → Dict String
observed_routes live = from_pairs (map (λ (r : LiveRoute). (r.identifier, r.receiver)) live.routes)

unfoldable pub route_findings : Dict String → String × String → List Finding
route_findings observed (identifier, receiver) = elim (lookup identifier observed) [
  | none ↦ record { code = Code.route_absent; location = identifier } ∷ []
  | some found ↦
      if found == receiver
      then []
      else record { code = Code.route_receiver_differs; location = identifier } ∷ []
]

unfoldable pub receiver_names : DesiredState → List String
receiver_names state = map (λ (r : Receiver). r.name) state.receivers

unfoldable pub canary_findings : List String → LiveCanary → List Finding
canary_findings names canary =
    when (not canary.fired)
      (record { code = Code.canary_not_fired; location = canary.receiver } ∷ [])
    ++ when (not (contains canary.receiver names))
        (record { code = Code.canary_receiver_undeclared; location = canary.receiver } ∷ [])
    ++ (if not canary.delivered
        then record { code = Code.canary_not_delivered; location = canary.receiver } ∷ []
        else when (is_none canary.receiver_evidence_ref)
            (record { code = Code.canary_delivery_unproven; location = canary.receiver } ∷ []))
    ++ when (not canary.recovered)
        (record { code = Code.canary_not_recovered; location = canary.receiver } ∷ [])

unfoldable pub delivery_findings : DesiredState → LiveState → List Finding
delivery_findings state live =
    let declared = declared_routes state in
    let observed = observed_routes live in
    when (not (is_nil declared) && is_nil observed)
      (record { code = Code.routes_not_read; location = "live.routes" } ∷ [])
    ++ flat_map (route_findings observed) declared
    ++ canary_findings (receiver_names state) live.canary
