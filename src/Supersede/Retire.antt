-- ===== src/Supersede/Retire.antt =====
-- `apply_supersession`: the stored document less the retired entries, one version on. The document
-- is what the store holds, under the contract's keys and any other.
pub mod Steps
pub mod Kept
use Prim.Native.String.{◌++◌ as ◌<>◌}
use dotmac_observability.Prelude.{
  ℕ, ◌+◌, String, not, ◌==◌, ◌!=◌, Option, none, some, List, [], ◌∷◌, ◌++◌, map, flat_map, keep,
  when, eqb, is_nil, contains, if◌then◌else◌, Dict, lookup, insert,
}
use dotmac_observability.Finding.{Finding, Code}
use dotmac_observability.Result.{Result, ok, raised, type_error, ◌>>=◌}
use dotmac_observability.Model.{PrivateInventory}
use dotmac_observability.LiveVerify.Targets.{subscript}
use dotmac_observability.Supersede.{SupersessionRequest}

-- An entry of a group; of each value, its `str`.
abbrev pub Row : Type 0
Row = Dict String

-- The contract makes `version` a number and a group an array of tables; of any other value, its
-- text.
pub data Value : Type 0 where
  number : ℕ → Value
  rows : List Row → Value
  other : String → Value

abbrev pub Document : Type 0
Document = Dict Value

-- `following.get(group, [])`, to be iterated over as rows.
unfoldable pub group_rows : Document → String → Result (List Row)
group_rows d group = elim (lookup group d) [
  | none ↦ ok []
  | some v ↦ elim v [ number n ↦ raised type_error | rows rs ↦ ok rs | other t ↦ raised type_error ]
]

-- `[str(row[key]) for row in rows]`
unfoldable pub row_names : String → List Row → Result (List String)
row_names key [] = ok []
row_names key (r ∷ rs) = do name ← subscript r key; names ← row_names key rs; ok (name ∷ names)

-- `row[key]`, which was read once already.
unfoldable pub name_of : String → Row → String
name_of key r = elim (lookup key r) [ none ↦ "" | some name ↦ name ]

unfoldable pub retained : String → List String → List Row → List Row
retained key names rs = keep (λ r. not (contains (name_of key r) names)) rs

-- The names that the group does not have.
unfoldable pub absent_findings : String → String → List String → List String → List Finding
absent_findings document group present names =
    map
      (λ name. record {
        code = Code.request_absent;
        location = document <> "#" <> group <> "/" <> name;
      })
      (keep (λ name. not (contains name present)) names)

-- The inner function `retire`: the document and the findings, after one group.
unfoldable pub retire :
    String
    → String
    → String
    → List String
    → Document × List Finding
    → Result (Document × List Finding)
retire document group key names (following, findings) = do
  rs ← group_rows following group
  present ← row_names key rs
  ok (
    insert group (rows (retained key names rs)) following,
    findings ++ absent_findings document group present names,
  )

unfoldable pub request_findings : SupersessionRequest → PrivateInventory → List Finding
request_findings request previous =
    when (request.document != previous.document)
      (record { code = Code.request_document; location = request.document } ∷ [])
    ++ when (not (eqb request.previous_version previous.version))
        (record { code = Code.request_version; location = request.document } ∷ [])
    ++ when (request.previous_digest != previous.digest)
        (record { code = Code.request_previous_digest; location = request.document } ∷ [])

-- `{key: value for ... if key != "version"}`, and the next version.
unfoldable pub next_version : PrivateInventory → Document → Document
next_version previous stored =
    insert "version" (number (previous.version + 1)) (keep (λ kv. kv.0 != "version") stored)

unfoldable pub retire_all : SupersessionRequest → Document → Result (Document × List Finding)
retire_all request following = do
  a ← retire request.document "targets" "target_id" request.targets (following, [])
  b ← retire request.document "federations" "target_id" request.federations a
  retire request.document "receivers" "credential_ref" request.receivers b

-- An empty document beside the findings, or the document and no finding.
unfoldable pub settled : Document × List Finding → Document × List Finding
settled (following, findings) = if is_nil findings then (following, []) else ([], findings)

unfoldable pub apply_supersession :
    SupersessionRequest → PrivateInventory → Document → Result (Document × List Finding)
apply_supersession request previous stored =
    if request.kind != "retire"
    then ok ([], record { code = Code.request_kind; location = request.document } ∷ [])
    else if not (is_nil (request_findings request previous))
    then ok ([], request_findings request previous)
    else do done ← retire_all request (next_version previous stored); ok (settled done)
