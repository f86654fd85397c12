-- ===== src/Supersede/Retire/Steps.antt =====
-- The three steps of an applied retirement, one for each group.
use dotmac_observability.Prelude.{
  ◌+◌, String, ◌!=◌, ◌≡◌, ◌≢◌, refl, sym, ap, ◌∙◌, arith, eq_iff, inl, inr, some, List, [], ◌∷◌,
  ◌++◌, keep, lookup, insert, lookup-insert,
}
use dotmac_observability.Finding.{Finding}
use dotmac_observability.Result.{ok, ok-injective, Result-cases}
use dotmac_observability.Model.{PrivateInventory}
use dotmac_observability.Supersede.{SupersessionRequest}
use dotmac_observability.Supersede.Retire.{
  Row, rows, number, Document, group_rows, row_names, retained, absent_findings, retire,
  next_version, retire_all,
}

lookup-keep :
    (j k : String) (d : Document) → j ≢ k → lookup j (keep (λ kv. kv.0 != k) d) ≡ lookup j d
unfolding lookup
lookup-keep j k [] n = refl
lookup-keep j k ((i, v) ∷ d) n = ground (arith, eq_iff i k, eq_iff i j, lookup-keep j k d n)

pub lookup-next_version :
    (previous : PrivateInventory) (stored : Document) (k : String)
    → k ≢ "version"
    → lookup k (next_version previous stored) ≡ lookup k stored
unfolding next_version
lookup-next_version previous stored k n =
    lookup-insert "version" k (number (previous.version + 1))
      (keep (λ kv. kv.0 != "version") stored)
    ∙ ground (arith, eq_iff "version" k, lookup-keep k "version" stored n)

pub lookup-version :
    (previous : PrivateInventory) (stored : Document)
    → lookup "version" (next_version previous stored) ≡ some (number (previous.version + 1))
unfolding next_version
lookup-version previous stored =
    lookup-insert "version" "version" (number (previous.version + 1))
      (keep (λ kv. kv.0 != "version") stored)

-- One step of `retire`, when it raised nothing and found nothing.
pub record Step (document group key : String) (names : List String) (before after : Document)
    (found found' : List Finding) : Type 0 where
  pub entries : List Row
  pub present : List String
  pub was : group_rows before group ≡ ok entries
  pub named : row_names key entries ≡ ok present
  pub result : after ≡ insert group (rows (retained key names entries)) before
  pub findings : found' ≡ found ++ absent_findings document group present names

retire-Step :
    (document group key : String) (names : List String) (before after : Document)
    (found found' : List Finding)
    → retire document group key names (before, found) ≡ ok (after, found')
    → Step document group key names before after found found'
unfolding retire
retire-Step document group key names before after found found' h =
    elim (Result-cases (group_rows before group)) [
      | inr (e, r) ↦ absurd (cc (rw r at h))
      | inl (entries, r) ↦ elim (Result-cases (row_names key entries)) [
        | inr (e, q) ↦ absurd (cc (rw (r, q) at h))
        | inl (present, q) ↦
            let same = ok-injective (rw (r, q) at h) in
            record {
              entries = entries;
              present = present;
              was = r;
              named = q;
              result = sym (ap (λ x. x.0) same);
              findings = sym (ap (λ x. x.1) same);
            }
      ]
    ]

pub Step-lookup_other :
    {document group key : String} {names : List String} {before after : Document}
    {found found' : List Finding} (s : Step document group key names before after found found')
    (k : String)
    → k ≢ group
    → lookup k after ≡ lookup k before
Step-lookup_other {group = group} {key = key} {names = names} {before = before} s k n =
    ap (lookup k) s.result
    ∙ lookup-insert group k (rows (retained key names s.entries)) before
    ∙ ground (arith, eq_iff group k)

pub Step-lookup :
    {document group key : String} {names : List String} {before after : Document}
    {found found' : List Finding} (s : Step document group key names before after found found')
    → lookup group after ≡ some (rows (retained key names s.entries))
Step-lookup {group = group} {key = key} {names = names} {before = before} s =
    ap (lookup group) s.result
    ∙ lookup-insert group group (rows (retained key names s.entries)) before
    ∙ ground (arith, eq_iff group group)

pub group_rows-lookup :
    (group : String) (d e : Document)
    → lookup group d ≡ lookup group e
    → group_rows d group ≡ group_rows e group
unfolding group_rows
group_rows-lookup group d e h = rw (h, group_rows)

pub append-nil : (xs ys : List Finding) → xs ++ ys ≡ [] → (xs ≡ []) × (ys ≡ [])
append-nil [] ys h = (refl, h)
append-nil (x ∷ xs) ys h = absurd (cc)

-- The three steps of a retirement that found nothing.
pub record Steps (request : SupersessionRequest) (start end : Document) : Type 0 where
  pub first : Document
  pub second : Document
  pub found : List Finding
  pub found' : List Finding
  pub targets : Step request.document "targets" "target_id" request.targets start first [] found
  pub federations :
      Step request.document "federations" "target_id" request.federations first second found found'
  pub receivers :
      Step request.document "receivers" "credential_ref" request.receivers second end found' []

pub retire_all-Steps :
    (request : SupersessionRequest) (start end : Document)
    → retire_all request start ≡ ok (end, [])
    → Steps request start end
unfolding retire_all
retire_all-Steps request start end h =
    elim (Result-cases
      (retire request.document "targets" "target_id" request.targets (start, []))) [
        | inr (e, r) ↦ absurd (cc (rw r at h))
        | inl (a, r) ↦
            elim (Result-cases
              (retire request.document "federations" "target_id" request.federations a)) [
                | inr (e, q) ↦ absurd (cc (rw (r, q) at h))
                | inl (b, q) ↦
                    let (first, found) = a in
                    let (second, found') = b in
                    record {
                      first = first;
                      second = second;
                      found = found;
                      found' = found';
                      targets =
                          retire-Step request.document "targets" "target_id" request.targets start
                            first [] found r;
                      federations =
                          retire-Step request.document "federations" "target_id" request.federations
                            first second found found' q;
                      receivers =
                          retire-Step request.document "receivers" "credential_ref"
                            request.receivers second end found' [] (rw (r, q) at h);
                    }
              ]
      ]
