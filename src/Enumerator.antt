-- ===== src/Enumerator.antt =====
-- The accounting of src/dotmac_observability/attribution_enumerators.py: `_read`, `_list`, `_run` and
-- `_outcome`, over a host source that may fail. Of an exception, its `error_class` where that is a
-- text; of a source, a record of methods over a world that they change.
-- An interrupt is an exception that is no `Exception`, of which its type's name is kept.
pub mod Bounds
pub mod Walks
use Prim.Native.String.{count}
use dotmac_observability.Prelude.{
  ℕ, ◌+◌, String, Bool, true, false, not, ◌&&◌, ◌||◌, ◌==◌, Option, none, some, List, [], ◌∷◌, ◌++◌,
  length, take, ltb, contains, if◌then◌else◌,
}
use dotmac_observability.Result.{Result, ok, raised, value_error, ◌>>=◌}
use dotmac_observability.Attribution.{FamilyScan}
use dotmac_observability.Attribution.Vault.{poison}

pub data Reply {ℓ} (A : Type ℓ) : Type ℓ where
  gives : A → Reply A
  fails : Option String → Reply A
  interrupts : String → Reply A

-- What a call of the three gives: no handler of theirs catches an interrupt.
pub data Call {ℓ} (A : Type ℓ) : Type ℓ where
  finished : Result A → Call A
  interrupted : String → Call A

pub record HostSource (W : Type 0) : Type 0 where
  pub exists : String → W → Reply Bool × W
  pub list_dir : String → W → Reply (List String) × W
  pub read_text : String → W → Reply String × W
  pub run : List String → W → Reply String × W

pub record Budget : Type 0 where
  pub max_files : ℕ
  pub max_bytes : ℕ
  pub max_entries : ℕ

-- `entries` is never counted.
pub record Ledger : Type 0 where
  pub files : ℕ
  pub read_bytes : ℕ
  pub errors : List String
  pub exhausted : Bool

abbrev pub source_error_classes : List String
source_error_classes = "missing" ∷ "denied" ∷ "timeout" ∷ "unsupported" ∷ "parse" ∷ []

-- The second version.
abbrev pub observation_error_classes : List String
observation_error_classes =
    "denied" ∷ "parse" ∷ "syntax" ∷ "ambiguous" ∷ "dynamic" ∷ "timeout" ∷ "unsupported" ∷ "missing"
    ∷ "unknown" ∷ []

unfoldable pub classify : Option String → String
classify none = "unknown"
classify (some code) = if contains code source_error_classes then code else "unknown"

-- The dictionary maps each of its keys to itself.
unfoldable pub observation_error : String → String
observation_error code =
    if contains code ("missing" ∷ "denied" ∷ "timeout" ∷ "unsupported" ∷ "parse" ∷ "unknown" ∷ [])
    then code
    else "unknown"

unfoldable pub note : String → Ledger → Result Ledger
note code l =
    if not (contains code observation_error_classes)
    then raised value_error
    else ok (record l { errors = l.errors ++ (code ∷ []) })

unfoldable pub spend_file : Budget → Ledger → Bool × Ledger
spend_file b l =
    if ltb b.max_files (l.files + 1)
    then (false, record l { files = l.files + 1; exhausted = true })
    else (true, record l { files = l.files + 1 })

unfoldable pub spend_bytes : ℕ → Budget → Ledger → Bool × Ledger
spend_bytes size b l =
    if ltb b.max_bytes (l.read_bytes + size)
    then (false, record l { read_bytes = l.read_bytes + size; exhausted = true })
    else (true, record l { read_bytes = l.read_bytes + size })

-- What a call has, beside its result: the ledger and the vault.
pub record Books : Type 0 where
  pub ledger : Ledger
  pub vault : List String

-- `ledger.note(observation_error(code))`
unfoldable pub noted : Option String → Books → Result Books
unfolding note classify observation_error
noted error k = do
  l ← note (observation_error (classify error)) k.ledger
  ok (record k { ledger = l })

-- The value of a call that failed, beside its error.
unfoldable pub failed_with {ℓ} : {A : Type ℓ} → A → Option String → Books → Result (A × Books)
unfolding noted
failed_with a error k = do k' ← noted error k; ok (a, k')

-- A text that was read, once its size is spent.
unfoldable pub after_read : Budget → String → Books → Option String × Books
unfolding spend_bytes poison
after_read b text k =
    let (fits, l) = spend_bytes (count text) b k.ledger in
    if fits
    then (some text, record { ledger = l; vault = poison (some text) k.vault })
    else (none, record k { ledger = l })

unfoldable pub judge_read : Budget → Bool → Reply String → Books → Call (Option String × Books)
unfolding failed_with after_read classify
judge_read b optional (gives text) k = finished (ok (after_read b text k))
judge_read b optional (fails error) k =
    if classify error == "missing" && optional
    then finished (ok (none, k))
    else finished (failed_with none error k)
judge_read b optional (interrupts name) k = interrupted name

-- What was listed, up to the budget.
unfoldable pub after_list : Budget → List String → Books → List String × Books
after_list b entries k =
    if ltb b.max_entries (length entries)
    then (take b.max_entries entries, record k { ledger = record k.ledger { exhausted = true } })
    else (entries, k)

unfoldable pub judge_list : Budget → Reply (List String) → Books → Call (List String × Books)
unfolding failed_with after_list classify
judge_list b (gives entries) k = finished (ok (after_list b entries k))
judge_list b (fails error) k =
    if classify error == "missing" then finished (ok ([], k)) else finished (failed_with [] error k)
judge_list b (interrupts name) k = interrupted name

unfoldable pub judge_run : Reply String → Books → Call (Option String × Books)
unfolding failed_with poison
judge_run (gives output) k =
    finished (ok (some output, record k { vault = poison (some output) k.vault }))
judge_run (fails error) k = finished (failed_with none error k)
judge_run (interrupts name) k = interrupted name

module _ {W : Type 0} (source : HostSource W) where
  unfoldable pub read : Budget → Bool → String → Books → W → Call (Option String × Books) × W
  unfolding spend_file judge_read
  read b optional path k w =
      let (fits, l) = spend_file b k.ledger in
      let (reply, w') = source.read_text path w in
      if fits
      then (judge_read b optional reply (record k { ledger = l }), w')
      else (finished (ok (none, record k { ledger = l })), w)

  unfoldable pub list : Budget → String → Books → W → Call (List String × Books) × W
  unfolding judge_list
  list b directory k w = let (reply, w') = source.list_dir directory w in (judge_list b reply k, w')

  unfoldable pub run_program : List String → Books → W → Call (Option String × Books) × W
  unfolding judge_run
  run_program argv k w = let (reply, w') = source.run argv w in (judge_run reply k, w')

-- `_outcome`, less the consumers, of which the scan has the number.
unfoldable pub outcome : String → Ledger → ℕ → Bool → FamilyScan
outcome family l consumers attempted = record {
  family = family;
  attempted = attempted;
  completed = not l.exhausted;
  errors = l.errors;
  found = consumers;
  evidence = [];
}
