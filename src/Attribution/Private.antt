-- ===== src/Attribution/Private.antt =====
-- What the public envelope can depend on.
use dotmac_observability.Prelude.{String, true, ◌≡◌, refl, List, ◌++◌, All, Dict, lookup}
use dotmac_observability.LiveVerify.Targets.{subscript}
use dotmac_observability.Attribution.{Payload, FamilyScan}
use dotmac_observability.Attribution.Project.{
  public_fields, private_fields, all_known, keys, count, build, project_envelope,
}

subscript-lookup :
    (d e : Dict Payload) (k : String) → lookup k d ≡ lookup k e → subscript d k ≡ subscript e k
unfolding subscript
subscript-lookup d e k h = rw (h, subscript) refl

count-lookup : (d e : Dict Payload) (k : String) → lookup k d ≡ lookup k e → count d k ≡ count e k
unfolding count
count-lookup d e k h = rw (h, count) refl

module _ (str : Payload → String) where
  build-public :
      (observed other : Dict Payload) (scans : Dict FamilyScan)
      → All (λ f. lookup f observed ≡ lookup f other) public_fields
      → build str observed scans ≡ build str other scans
  unfolding build
  build-public d e scans
        (
          target,
          (
            observation,
            (
              collector,
              (
                authorization,
                (challenge, (authority, (host, (at, (attributed, (unattributed, _)))))),
              ),
            ),
          ),
        ) =
      rw
        (
          subscript-lookup d e "target_id" target,
          subscript-lookup d e "observation_digest" observation,
          subscript-lookup d e "collector_artifact_digest" collector,
          subscript-lookup d e "host_identity_digest" host,
          subscript-lookup d e "observed_at" at,
          count-lookup d e "consumers_attributed" attributed,
          count-lookup d e "consumers_unattributed" unattributed,
          subscript-lookup d e "authorization_digest" authorization,
          subscript-lookup d e "challenge_digest" challenge,
          subscript-lookup d e "authority_ref" authority,
        )
        refl

  -- Two observations with only classified names that agree on every public field give the same
  -- result of project_envelope, with the same scans and the same vault: no private field is
  -- published, nor decides whether the envelope is.
  pub project_envelope-public :
      (observed other : Dict Payload) (scans : Dict FamilyScan) (vault : List String)
      → all_known (public_fields ++ private_fields) (keys observed) ≡ true
      → all_known (public_fields ++ private_fields) (keys other) ≡ true
      → All (λ f. lookup f observed ≡ lookup f other) public_fields
      → project_envelope str observed scans vault ≡ project_envelope str other scans vault
  unfolding project_envelope
  project_envelope-public d e scans vault known known' same =
      rw (known, known', build-public d e scans same) refl
