-- ===== src/Attribution/Clean.antt =====
-- What a published envelope holds, and what it cannot hold.
use mathlib.Core.Path.{subst}
use dotmac_observability.Prelude.{
  ◌+◌, String, Bool, true, false, ◌||◌, ◌≡◌, refl, ap, ◌∙◌, ◌⊎◌, inl, inr, arith, some, List, [],
  ◌∷◌, ◌++◌, map, length, All, Bool-cases, Dict, lookup, Option-cases,
}
use dotmac_observability.Result.{Result, ok, raised, ok-injective, ◌>>=◌}
use dotmac_observability.LiveVerify.Targets.{subscript}
use dotmac_observability.Attribution.{
  Verdict, scanned, absent, unknown, declared_families, FamilyScan, verdict_of, Payload, object,
}
use dotmac_observability.Attribution.Vault.{occurs, walk, any_occurs, any_poisoned, assert_clean}
use dotmac_observability.Attribution.Project.{
  Envelope, Coverage, str_of, count, verify_request, public_fields, private_fields, all_known,
  same_set, keys, coverage_rows, how_many, envelope_payload, build, checked, project_envelope,
}

or_false : (a b : Bool) → a || b ≡ false → (a ≡ false) × (b ≡ false)
or_false true b h = absurd (cc)
or_false false b h = (refl, h)

-- No value of the vault occurs in the text.
abbrev pub Unpoisoned : List String → String → Type 0
Unpoisoned vault t = All (λ p. occurs p t ≡ false) vault

any_occurs-false :
    (vault : List String) (t : String) → any_occurs vault t ≡ false → Unpoisoned vault t
unfolding any_occurs
any_occurs-false [] t h = tt
any_occurs-false (p ∷ vault) t h =
    let (a, b) = or_false (occurs p t) (any_occurs vault t) h in (a, any_occurs-false vault t b)

any_poisoned-false :
    (vault ts : List String) → any_poisoned vault ts ≡ false → All (Unpoisoned vault) ts
unfolding any_poisoned
any_poisoned-false vault [] h = tt
any_poisoned-false vault (t ∷ ts) h =
    let (a, b) = or_false (any_occurs vault t) (any_poisoned vault ts) h in
    (any_occurs-false vault t a, any_poisoned-false vault ts b)

pub assert_clean-Unpoisoned :
    (vault : List String) (payload : Payload)
    → assert_clean vault payload ≡ ok tt
    → All (Unpoisoned vault) (walk payload)
unfolding assert_clean
assert_clean-Unpoisoned vault payload h = elim (Bool-cases (any_poisoned vault (walk payload))) [
  | inl poisoned ↦ absurd (cc (rw poisoned at h))
  | inr clean ↦ any_poisoned-false vault (walk payload) clean
]

-- A row reports the verdict of the family's own scan.
abbrev pub Reports : Dict FamilyScan → Coverage → Type 0
Reports scans row =
    (scan : FamilyScan) × (lookup row.family scans ≡ some scan) × (row.verdict ≡ verdict_of scan)

-- A step of a do block that gave a value.
bind-ok {ℓ κ} :
    {A : Type ℓ} {B : Type κ} (r : Result A) (f : A → Result B) {b : B}
    → (r >>= f) ≡ ok b
    → (a : A) × (r ≡ ok a) × (f a ≡ ok b)
bind-ok (ok a) f h = (a, refl, h)
bind-ok (raised e) f h = absurd (cc)

subscript-ok :
    (scans : Dict FamilyScan) (name : String) (scan : FamilyScan)
    → subscript scans name ≡ ok scan
    → lookup name scans ≡ some scan
unfolding subscript
subscript-ok scans name scan h = elim (Option-cases (lookup name scans)) [
  | inl e ↦ absurd (cc (rw (e, subscript) at h))
  | inr (s, e) ↦ e ∙ ap some (ok-injective (rw (e, subscript) at h))
]

abbrev Reported : Dict FamilyScan → List String → List Coverage → Type 0
Reported scans names rows =
    (map (λ (row : Coverage). row.family) rows ≡ names) × All (Reports scans) rows

coverage_rows-Reports :
    (scans : Dict FamilyScan) (names : List String) (rows : List Coverage)
    → coverage_rows scans names ≡ ok rows
    → Reported scans names rows
unfolding coverage_rows
coverage_rows-Reports scans [] rows h = subst (Reported scans []) (ok-injective h) (refl, tt)
coverage_rows-Reports scans (name ∷ names) rows h =
    let (scan, p, k) = bind-ok (subscript scans name) _ h in
    let (rest, q, m) = bind-ok (coverage_rows scans names) _ k in
    let (families, reports) = coverage_rows-Reports scans names rest q in
    subst (Reported scans (name ∷ names)) (ok-injective m)
      (ap (λ ns. name ∷ ns) families, ((scan, subscript-ok scans name scan p, refl), reports))

Verdict-cases : (v : Verdict) → (v ≡ scanned) ⊎ ((v ≡ absent) ⊎ (v ≡ unknown))
Verdict-cases scanned = inl refl
Verdict-cases absent = inr (inl refl)
Verdict-cases unknown = inr (inr refl)

how_many-all :
    (scans : Dict FamilyScan)
    → how_many scanned scans + how_many absent scans + how_many unknown scans ≡ length scans
unfolding how_many
how_many-all [] = refl
how_many-all ((name, scan) ∷ scans) =
    let rest = how_many-all scans in
    elim (Verdict-cases (verdict_of scan)) [
      | inl e ↦ rw (e, how_many) (omega arith)
      | inr other ↦ elim other [
        | inl e ↦ rw (e, how_many) (omega arith)
        | inr e ↦ rw (e, how_many) (omega arith)
      ]
    ]

-- The parts of a built envelope that the scans decide.
abbrev Scanned : Dict FamilyScan → Envelope → Type 0
Scanned scans e =
    (Reported scans declared_families e.coverage)
    × (e.families_scanned + e.families_absent + e.families_unknown ≡ length scans)

checked-Unpoisoned :
    (vault : List String) (built e : Envelope)
    → checked vault built ≡ ok e
    → (built ≡ e) × All (Unpoisoned vault) (walk (object (envelope_payload built)))
unfolding checked
checked-Unpoisoned vault built e h =
    let (u, clean, k) = bind-ok (assert_clean vault (object (envelope_payload built))) _ h in
    (ok-injective k, assert_clean-Unpoisoned vault (object (envelope_payload built)) clean)

module _ (str : Payload → String) where
  build-Scanned :
      (observed : Dict Payload) (scans : Dict FamilyScan) (e : Envelope)
      → build str observed scans ≡ ok e
      → Scanned scans e
  unfolding build
  build-Scanned observed scans e h =
      let (a1, _, h1) = bind-ok (subscript observed "target_id") _ h in
      let (a2, _, h2) = bind-ok (subscript observed "observation_digest") _ h1 in
      let (a3, _, h3) = bind-ok (subscript observed "collector_artifact_digest") _ h2 in
      let (a4, _, h4) = bind-ok (subscript observed "host_identity_digest") _ h3 in
      let (a5, _, h5) = bind-ok (subscript observed "observed_at") _ h4 in
      let (rows, p, h6) = bind-ok (coverage_rows scans declared_families) _ h5 in
      let (a7, _, h7) = bind-ok (count observed "consumers_attributed") _ h6 in
      let (a8, _, h8) = bind-ok (count observed "consumers_unattributed") _ h7 in
      let (a9, _, h9) = bind-ok (subscript observed "authorization_digest") _ h8 in
      let (a10, _, h10) = bind-ok (subscript observed "challenge_digest") _ h9 in
      let (a11, _, h11) = bind-ok (subscript observed "authority_ref") _ h10 in
      let (r, _, h12) =
        bind-ok (verify_request (str_of str a9) (str_of str a10) (str_of str a11)) _ h11 in
      subst (Scanned scans) (ok-injective h12)
        (coverage_rows-Reports scans declared_families rows p, how_many-all scans)

  -- What holds of an envelope that was returned.
  pub record Published (observed : Dict Payload) (scans : Dict FamilyScan) (vault : List String)
      (e : Envelope) : Type 0 where
    pub inputs_known : all_known (public_fields ++ private_fields) (keys observed) ≡ true
    pub one_each : same_set (keys scans) declared_families ≡ true
    pub families : map (λ (row : Coverage). row.family) e.coverage ≡ declared_families
    pub reports : All (Reports scans) e.coverage
    pub total : e.families_scanned + e.families_absent + e.families_unknown ≡ length scans
    pub unpoisoned : All (Unpoisoned vault) (walk (object (envelope_payload e)))

  -- If project_envelope returns an envelope, then every input name is classified, the scans are of
  -- exactly the declared families, the coverage lists the declared families in order, each with
  -- the verdict that its own scan derives, the three counts of families add up to the number of
  -- scans, and no value of the vault occurs in any key or text of the envelope.
  pub project_envelope-Published :
      (observed : Dict Payload) (scans : Dict FamilyScan) (vault : List String) (e : Envelope)
      → project_envelope str observed scans vault ≡ ok e
      → Published observed scans vault e
  unfolding project_envelope
  project_envelope-Published observed scans vault e h =
      elim (Bool-cases (all_known (public_fields ++ private_fields) (keys observed))) [
        | inr unclassified ↦ absurd (cc (rw (unclassified, project_envelope) at h))
        | inl known ↦ elim (Bool-cases (same_set (keys scans) declared_families)) [
          | inr missing ↦ absurd (cc (rw (known, missing, project_envelope) at h))
          | inl each ↦
              let (built, p, k) =
                bind-ok (build str observed scans) _ (rw (known, each, project_envelope) at h) in
              let (same, clean) = checked-Unpoisoned vault built e k in
              let (reported, total) = build-Scanned observed scans built p in
              subst (Published observed scans vault) same (record {
                inputs_known = known;
                one_each = each;
                families = reported.0;
                reports = reported.1;
                total = total;
                unpoisoned = clean;
              })
        ]
      ]
