-- ===== src/Supersede/Succession.antt =====
-- What a succession without findings is, and what a sequence of them is.
use dotmac_observability.Prelude.{
  ℕ, ◌+◌, ◌≡◌, ◌≢◌, ◌↔◌, refl, ◌∙◌, String, arith, eq_iff, eqb_iff, [], suc,
}
use dotmac_observability.Model.{PrivateInventory}
use dotmac_observability.Supersede.{supersede_findings}

-- The next version of one document, with another content.
pub record Succeeds (previous following : PrivateInventory) (expected : String) : Type 0 where
  pub read : previous.digest ≡ expected
  pub document : following.document ≡ previous.document
  pub environment : following.environment ≡ previous.environment
  pub version : following.version ≡ previous.version + 1
  pub changed : following.content_digest ≢ previous.content_digest

supersede_all :
    (previous following : PrivateInventory) (expected : String)
    → (supersede_findings previous following expected ≡ []) ↔ (
        (previous.digest ≡ expected)
        × (following.document ≡ previous.document)
        × (following.environment ≡ previous.environment)
        × (following.version ≡ previous.version + 1)
        × (following.content_digest ≢ previous.content_digest))
unfolding supersede_findings
supersede_all previous following expected = ground (
  arith,
  eq_iff previous.digest expected,
  eq_iff following.document previous.document,
  eq_iff following.environment previous.environment,
  eqb_iff following.version (previous.version + 1),
  eq_iff following.content_digest previous.content_digest,
)

-- supersede_findings finds nothing exactly when the previous version has the expected digest, and
-- the following one is of the same document and environment, has the next version number and
-- another content digest.
pub supersede_findings-Succeeds :
    (previous following : PrivateInventory) (expected : String)
    → (supersede_findings previous following expected ≡ []) ↔ Succeeds previous following expected
supersede_findings-Succeeds previous following expected = (
  λ h.
      let (read, document, environment, version, changed) =
        (supersede_all previous following expected).0 h in
      record {
        read = read;
        document = document;
        environment = environment;
        version = version;
        changed = changed;
      },
  λ s.
      (supersede_all previous following expected).1
        (s.read, s.document, s.environment, s.version, s.changed),
)

-- What a store holds over time: each document supersedes the one before it without findings.
pub data History (first : PrivateInventory) : ℕ → PrivateInventory → Type 0 where
  begins : History first 0 first
  goes_on :
      {n : ℕ} {p : PrivateInventory} (following : PrivateInventory) (expected : String)
      → History first n p
      → supersede_findings p following expected ≡ []
      → History first (suc n) following

-- After any sequence of n supersessions without findings, each by an inventory and an expected
-- digest of its own, the last inventory has the first one's version plus n, and the first one's
-- document and environment.
pub History-version :
    (first : PrivateInventory) {n : ℕ} {last : PrivateInventory}
    → History first n last
    → (last.version ≡ first.version + n)
      × (last.document ≡ first.document)
      × (last.environment ≡ first.environment)
History-version first begins = (omega arith, refl, refl)
History-version first (goes_on {p = p} following expected h nothing) =
    let s = (supersede_findings-Succeeds p following expected).0 nothing in
    let (version, document, environment) = History-version first h in
    (omega arith, s.document ∙ document, s.environment ∙ environment)
