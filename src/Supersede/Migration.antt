-- ===== src/Supersede/Migration.antt =====
-- `migration_findings`: the succession of a document in the capture format.
use dotmac_observability.Prelude.{
  ℕ, ◌+◌, String, not, ◌==◌, ◌!=◌, ◌≡◌, ◌≢◌, ◌↔◌, arith, eq_iff, eqb, eqb_iff, List, [], ◌∷◌, ◌++◌,
  when,
}
use dotmac_observability.Finding.{Finding, Code}
use dotmac_observability.Model.{PrivateInventory}

-- Its raw document is not read here.
pub record CaptureInventory : Type 0 where
  pub version : ℕ
  pub environment : String
  pub digest : String

unfoldable pub migration_findings : CaptureInventory → PrivateInventory → String → List Finding
migration_findings capture produced expect_previous_digest =
    when (capture.digest != expect_previous_digest)
      (record { code = Code.supersede_precondition; location = produced.document } ∷ [])
    ++ when (not (eqb produced.version (capture.version + 1)))
        (record { code = Code.supersede_version; location = produced.document } ∷ [])
    ++ when (produced.environment != capture.environment)
        (record { code = Code.supersede_environment; location = produced.document } ∷ [])
    ++ when (produced.digest == capture.digest)
        (record { code = Code.supersede_unchanged; location = produced.document } ∷ [])

-- migration_findings finds nothing exactly when the capture has the expected digest, and the
-- produced document has the next version, the capture's environment and another digest.
pub migration_findings-eq-nil :
    (capture : CaptureInventory) (produced : PrivateInventory) (expected : String)
    → (migration_findings capture produced expected ≡ []) ↔ (
        (capture.digest ≡ expected)
        × (produced.version ≡ capture.version + 1)
        × (produced.environment ≡ capture.environment)
        × (produced.digest ≢ capture.digest))
unfolding migration_findings
migration_findings-eq-nil capture produced expected = ground (
  arith,
  eq_iff capture.digest expected,
  eqb_iff produced.version (capture.version + 1),
  eq_iff produced.environment capture.environment,
  eq_iff produced.digest capture.digest,
)
