-- ===== src/Semantic/Routing.antt =====
-- `_routing_findings`.
use Prim.Native.Char.{code}
use Prim.Native.String.{◌++◌ as ◌<>◌}
use dotmac_observability.Prelude.{
  String, Bool, false, not, ◌&&◌, ◌||◌, ◌==◌, Option, none, some, List, [], ◌∷◌, ◌++◌, map,
  flat_map, keep, when, contains, is_none, is_nil, eqb, if◌then◌else◌, Dict, from_pairs, lookup,
  has_key,
}
use dotmac_observability.Finding.{Finding, Code}
use dotmac_observability.Model.{DesiredState, Receiver, Integration, Route, Smtp}
use dotmac_observability.Semantic.{seen_loop, is_missing}

unfoldable pub receiver_location : Receiver → String
receiver_location r = "routing/receivers.toml#" <> r.name

unfoldable pub route_location : Route → String
route_location r = "routing/policies.toml#" <> r.identifier

-- `declared`
unfoldable pub declared_receivers : DesiredState → Dict Receiver
declared_receivers state = from_pairs (map (λ (r : Receiver). (r.name, r)) state.receivers)

unfoldable pub smtp_findings : Option Smtp → String → Integration → List Finding
smtp_findings smtp location i =
    when (i.kind == "email" && is_none smtp)
      (record { code = Code.smtp_unconfigured; location = location } ∷ [])

-- The references of a receiver's integrations, the last one first.
unfoldable pub seen_refs : List String → List Integration → List String
seen_refs seen [] = seen
seen_refs seen (i ∷ is) = seen_refs (i.credential_ref ∷ seen) is

unfoldable pub silent_findings : Receiver → List Finding
unfolding is_missing
silent_findings r =
    when (is_nil r.integrations && is_missing r.null_policy)
      (record { code = Code.receiver_silent; location = receiver_location r } ∷ [])

unfoldable pub receiver_loop : Option Smtp → List String → List Receiver → List Finding
unfolding seen_loop smtp_findings seen_refs silent_findings
receiver_loop smtp seen [] = []
receiver_loop smtp seen (r ∷ rs) =
    seen_loop (λ (i : Integration). i.credential_ref)
      (λ i. record { code = Code.credential_ref_shared; location = receiver_location r })
      (smtp_findings smtp (receiver_location r)) seen r.integrations
    ++ silent_findings r
    ++ receiver_loop smtp (seen_refs seen r.integrations) rs

unfoldable pub default_findings : DesiredState → List Finding
default_findings state =
    when (not (has_key state.defaults.receiver (declared_receivers state)))
      (record { code = Code.route_undeclared; location = "routing/policies.toml#defaults" } ∷ [])

unfoldable pub undeclared_findings : Dict Receiver → Route → List Finding
undeclared_findings declared route =
    when (not (has_key route.receiver declared))
      (record { code = Code.route_undeclared; location = route_location route } ∷ [])

unfoldable pub route_loop : DesiredState → List Finding
unfolding seen_loop undeclared_findings
route_loop state =
    seen_loop (λ (r : Route). r.identifier)
      (λ r. record { code = Code.route_duplicate; location = route_location r })
      (undeclared_findings (declared_receivers state)) [] state.routes

-- `used`
unfoldable pub used_names : DesiredState → List String
used_names state = state.defaults.receiver ∷ map (λ (r : Route). r.receiver) state.routes

unfoldable pub unused_receivers : DesiredState → List Finding
unused_receivers state =
    map
      (λ name. record { code = Code.receiver_unused; location = "routing/receivers.toml#" <> name })
      (keep (λ name. not (contains name (used_names state)))
        (map (λ kv. kv.0) (declared_receivers state)))

-- `candidate.replace(" ", "")`
unfoldable pub without_spaces : String → String
without_spaces String.[] = ""
without_spaces (String.◌∷◌ c s) =
    let rest = without_spaces s in if eqb (code c) 32 then rest else String.◌∷◌ c rest

unfoldable pub any_matches : String → List String → Bool
unfolding without_spaces
any_matches matcher [] = false
any_matches matcher (m ∷ ms) = matcher == without_spaces m || any_matches matcher ms

unfoldable pub undelivered_findings : Dict Receiver → Route → List Finding
undelivered_findings declared route = elim (lookup route.receiver declared) [
  | none ↦ []
  | some target ↦
      when (is_nil target.integrations)
        (record { code = Code.severity_undelivered; location = route_location route } ∷ [])
]

unfoldable pub matched_routes : String → List Route → List Route
unfolding any_matches
matched_routes matcher routes = keep (λ r. any_matches matcher r.matchers) routes

-- One round of the loop over the severities.
unfoldable pub severity_findings : DesiredState → String → List Finding
unfolding matched_routes undelivered_findings
severity_findings state severity =
    let matched = matched_routes ("severity=\"" <> severity <> "\"") state.routes in
    if is_nil matched
    then record { code = Code.severity_unrouted; location = "routing/policies.toml" } ∷ []
    else flat_map (undelivered_findings (declared_receivers state)) matched

unfoldable pub routing_findings : DesiredState → List Finding
unfolding receiver_loop default_findings route_loop unused_receivers severity_findings
routing_findings state =
    receiver_loop state.control_plane.smtp [] state.receivers
    ++ default_findings state
    ++ route_loop state
    ++ unused_receivers state
    ++ severity_findings state "warning"
    ++ severity_findings state "critical"
