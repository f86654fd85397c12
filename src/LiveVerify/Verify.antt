-- ===== src/LiveVerify/Verify.antt =====
-- `verify` of live_verify.py: all six conditions, each evaluated even where another has failed.
use dotmac_observability.Prelude.{String, Bool, ◌!=◌, Option, List, [], ◌∷◌, ◌++◌, when}
use dotmac_observability.Finding.{Finding, Code}
use dotmac_observability.Result.{Result, ok, ◌>>=◌}
use dotmac_observability.Platform.{Platform}
use dotmac_observability.Model.{DesiredState, Resolution}
use dotmac_observability.LiveVerify.Records.{LiveState, Verification}
use dotmac_observability.LiveVerify.Tree.{RenderedTree, tree_findings}
use dotmac_observability.LiveVerify.Targets.{target_findings}
use dotmac_observability.LiveVerify.Targets.Rules.{rule_findings}
use dotmac_observability.LiveVerify.Integrity.{integrity_findings}
use dotmac_observability.LiveVerify.Delivery.{delivery_findings}
use dotmac_observability.LiveVerify.Probes.{probe_findings}
use dotmac_observability.LiveVerify.Rollback.{rollback_findings}

unfoldable pub identity_findings : DesiredState → LiveState → List Finding
identity_findings state live =
    when (live.environment != state.control_plane.environment)
      (record { code = Code.observation_environment; location = live.environment } ∷ [])
    ++ when (live.host_target_id != state.control_plane.host.target_id)
        (record { code = Code.observation_host; location = live.host_target_id } ∷ [])

-- What `verify` is told beside the state, the tree and the read-back.
pub record Against : Type 0 where
  pub baseline : Option LiveState
  pub previous_digest : Option String
  pub first_promotion : Bool

-- The six results from the six lists of findings.
unfoldable pub conditions_of : (f1 f2 f3 f4 f5 f6 : List Finding) → Verification
conditions_of f1 f2 f3 f4 f5 f6 = record {
  conditions =
      record { number = 1; findings = f1 }
      ∷ record { number = 2; findings = f2 }
      ∷ record { number = 3; findings = f3 }
      ∷ record { number = 4; findings = f4 }
      ∷ record { number = 5; findings = f5 }
      ∷ record { number = 6; findings = f6 }
      ∷ [];
}

unfoldable pub verify :
    Platform → DesiredState → Resolution → RenderedTree → LiveState → Against → Result Verification
verify py state resolution tree live against = do
  targets ← target_findings state resolution live
  integrity ← integrity_findings py state live against.baseline
  ok (
      conditions_of (identity_findings state live ++ tree_findings py tree live)
        (targets ++ rule_findings state live) integrity (delivery_findings state live)
        (probe_findings state live)
        (rollback_findings live against.previous_digest against.first_promotion))
