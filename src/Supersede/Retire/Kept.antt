-- ===== src/Supersede/Retire/Kept.antt =====
-- What an applied retirement changed in the stored document, and what it left.
use dotmac_observability.Prelude.{
  ◌+◌, String, true, false, not, ◌==◌, ◌!=◌, ◌≡◌, ◌≢◌, refl, sym, ap, ◌∙◌, arith, eq_iff, eqb_iff,
  inl, inr, some, List, [], ◌∷◌, keep, is_nil, is_nil-eq-true, contains, All, lookup, Bool-cases,
}
use dotmac_observability.Finding.{Finding}
use dotmac_observability.Result.{ok, ok-injective, Result-cases}
use dotmac_observability.Model.{PrivateInventory}
use dotmac_observability.Supersede.{SupersessionRequest}
use dotmac_observability.Supersede.Retire.{
  Row, rows, number, Document, group_rows, row_names, retained, name_of, absent_findings,
  request_findings, next_version, retire_all, settled, apply_supersession,
}
use dotmac_observability.Supersede.Retire.Steps.{
  lookup-next_version, lookup-version, Step, Step-lookup_other, Step-lookup, group_rows-lookup,
  append-nil, Steps, retire_all-Steps,
}

-- Of a group: each name of the request was a row's, and the rows of no such name remain, in order.
pub record GroupRetired (stored following : Document) (group key : String) (names : List String)
    : Type 0 where
  pub before : List Row
  pub present : List String
  pub was : group_rows stored group ≡ ok before
  pub named : row_names key before ≡ ok present
  pub all_present : All (λ n. contains n present ≡ true) names
  pub now :
      lookup group following ≡ some (rows (keep (λ r. not (contains (name_of key r) names)) before))

pub record Retired (request : SupersessionRequest) (previous : PrivateInventory)
    (stored following : Document) : Type 0 where
  pub of_kind : request.kind ≡ "retire"
  pub of_document : request.document ≡ previous.document
  pub of_version : request.previous_version ≡ previous.version
  pub of_digest : request.previous_digest ≡ previous.digest
  pub version : lookup "version" following ≡ some (number (previous.version + 1))
  pub targets : GroupRetired stored following "targets" "target_id" request.targets
  pub federations : GroupRetired stored following "federations" "target_id" request.federations
  pub receivers : GroupRetired stored following "receivers" "credential_ref" request.receivers
  pub kept :
      (k : String)
      → k ≢ "version"
      → k ≢ "targets"
      → k ≢ "federations"
      → k ≢ "receivers"
      → lookup k following ≡ lookup k stored

differ : (j k : String) → (j == k) ≡ false → j ≢ k
differ j k h = ground (arith, eq_iff j k, h)

absent-nil :
    (document group : String) (present names : List String)
    → absent_findings document group present names ≡ []
    → All (λ n. contains n present ≡ true) names
unfolding absent_findings
absent-nil document group present [] h = tt
absent-nil document group present (n ∷ names) h = elim (Bool-cases (contains n present)) [
  | inl found ↦ (found, absent-nil document group present names (rw found at h))
  | inr missing ↦ absurd (cc (rw missing at h))
]

-- A step whose group the earlier steps left alone, and the later ones too.
Step-GroupRetired :
    {document group key : String} {names : List String} {before after : Document}
    {found found' : List Finding} (s : Step document group key names before after found found')
    (stored following : Document)
    → lookup group before ≡ lookup group stored
    → lookup group following ≡ lookup group after
    → absent_findings document group s.present names ≡ []
    → GroupRetired stored following group key names
unfolding retained
Step-GroupRetired {document = document} {group = group} {names = names} {before = before} s stored
      following early late nothing =
    record {
      before = s.entries;
      present = s.present;
      was = sym (group_rows-lookup group before stored early) ∙ s.was;
      named = s.named;
      all_present = absent-nil document group s.present names nothing;
      now = late ∙ Step-lookup s;
    }

settled-nil :
    (following doc : Document) (findings : List Finding)
    → settled (following, findings) ≡ (doc, [])
    → (findings ≡ []) × (doc ≡ following)
unfolding settled
settled-nil following doc [] h = (refl, sym (ap (λ x. x.0) h))
settled-nil following doc (x ∷ xs) h = absurd (cc (ap (λ x. x.1) h))

Steps-Retired :
    (request : SupersessionRequest) (previous : PrivateInventory) (stored end : Document)
    → request_findings request previous ≡ []
    → request.kind ≡ "retire"
    → Steps request (next_version previous stored) end
    → Retired request previous stored end
unfolding request_findings
Steps-Retired request previous stored end clean kind s =
    let start = lookup-next_version previous stored in
    let t = Step-lookup_other s.targets in
    let f = Step-lookup_other s.federations in
    let r = Step-lookup_other s.receivers in
    let (fs, last) = append-nil s.found' _ (sym s.receivers.findings) in
    let (ts, middle) = append-nil s.found _ (sym s.federations.findings ∙ fs) in
    let first = sym s.targets.findings ∙ ts in
    record {
      of_kind = kind;
      of_document = ground (arith, eq_iff request.document previous.document, clean);
      of_version = ground (arith, eqb_iff request.previous_version previous.version, clean);
      of_digest = ground (arith, eq_iff request.previous_digest previous.digest, clean);
      version =
          r "version" (differ "version" "receivers" refl)
          ∙ f "version" (differ "version" "federations" refl)
          ∙ t "version" (differ "version" "targets" refl)
          ∙ lookup-version previous stored;
      targets =
          Step-GroupRetired s.targets stored end (start "targets" (differ "targets" "version" refl))
            (r "targets" (differ "targets" "receivers" refl)
              ∙ f "targets" (differ "targets" "federations" refl))
            first;
      federations =
          Step-GroupRetired s.federations stored end
            (t "federations" (differ "federations" "targets" refl)
              ∙ start "federations" (differ "federations" "version" refl))
            (r "federations" (differ "federations" "receivers" refl)) middle;
      receivers =
          Step-GroupRetired s.receivers stored end
            (f "receivers" (differ "receivers" "federations" refl)
              ∙ t "receivers" (differ "receivers" "targets" refl)
              ∙ start "receivers" (differ "receivers" "version" refl))
            refl last;
      kept = λ k nv nt nf nr. r k nr ∙ f k nf ∙ t k nt ∙ start k nv;
    }

-- If apply_supersession returns a document and no finding, then the request is a retirement that
-- names the previous document, version and digest, the version is the next one, in each of the
-- three groups every name of the request was a row's and the rows of no such name remain in order,
-- and every other key has the value that it had in the stored document.
pub apply_supersession-Retired :
    (request : SupersessionRequest) (previous : PrivateInventory) (stored following : Document)
    → apply_supersession request previous stored ≡ ok (following, [])
    → Retired request previous stored following
unfolding apply_supersession
apply_supersession-Retired request previous stored following h =
    elim (Bool-cases (request.kind != "retire")) [
      | inl other ↦ absurd (cc (ap (λ x. x.1) (ok-injective (rw other at h))))
      | inr kind ↦ elim (Bool-cases (is_nil (request_findings request previous))) [
        | inr found ↦
            absurd (cc (ap (λ x. is_nil x.1) (ok-injective (rw (kind, found) at h)), found))
        | inl clean ↦ elim (Result-cases (retire_all request (next_version previous stored))) [
          | inr (e, q) ↦ absurd (cc (rw (kind, clean, q) at h))
          | inl (done, q) ↦
              let (end, findings) = done in
              let (none_found, same) =
                settled-nil end following findings (ok-injective (rw (kind, clean, q) at h)) in
              rw same (
                Steps-Retired request previous stored end
                  (is_nil-eq-true (request_findings request previous) clean)
                  (ground (arith, eq_iff request.kind "retire", kind))
                  (retire_all-Steps request (next_version previous stored) end
                    (q ∙ ap (λ fs. ok (end, fs)) none_found)))
        ]
      ]
    ]
