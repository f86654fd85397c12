-- ===== src/LiveVerify/Integrity.antt =====
-- Condition 3 of live_verify.py: no new rejected samples, against a baseline that was not reset.
pub mod Steady
pub mod Dates
use Prim.Native.Nat.{max}
use Prim.Native.String.{◌++◌ as ◌<>◌}
use dotmac_observability.Prelude.{
  ℕ, ◌*◌, String, Bool, true, false, not, Option, none, some, List, [], ◌∷◌, ◌++◌, map, flat_map,
  keep, when, is_nil, is_none, ltb, eqb, if◌then◌else◌, Dict, lookup, has_key, from_pairs, sorted,
  contains, ℤ, sub_ℕ, ltb_ℤ, ◌==◌,
}
use dotmac_observability.Finding.{Finding, Code}
use dotmac_observability.Result.{Result, ok, raised, type_error, ◌>>=◌}
use dotmac_observability.Platform.{Platform, Instant, naive, aware}
use dotmac_observability.Model.{DesiredState, VerificationGate}
use dotmac_observability.LiveVerify.Records.{LiveState, IntegrityReading}
use dotmac_observability.LiveVerify.Derive.{integrity_counters, duration_seconds}

-- `{reading.counter: reading for reading in live.integrity}`
unfoldable pub readings : LiveState → Dict IntegrityReading
readings live = from_pairs (map (λ (r : IntegrityReading). (r.counter, r)) live.integrity)

-- Two readings of one counter.
unfoldable pub counter_findings : IntegrityReading → IntegrityReading → List Finding
counter_findings before after =
    when (eqb before.value 0)
      (record { code = Code.integrity_baseline_zero; location = after.counter } ∷ [])
    ++ when (not (eqb after.process_start_time before.process_start_time))
        (record { code = Code.integrity_process_restarted; location = after.counter } ∷ [])
    ++ (if ltb after.value before.value
        then record { code = Code.integrity_counter_reset; location = after.counter } ∷ []
        else when (ltb before.value after.value)
            (record { code = Code.integrity_increased; location = after.counter } ∷ []))

-- One round of the loop over the counters that are declared and read.
unfoldable pub delta_findings :
    Dict IntegrityReading → Dict IntegrityReading → String → List Finding
delta_findings based read counter = elim (lookup counter read) [
  | none ↦ []
  | some after ↦ elim (lookup counter based) [
    | none ↦ record { code = Code.integrity_baseline_counter_absent; location = counter } ∷ []
    | some before ↦ counter_findings before after
  ]
]

microseconds : Instant → ℕ
microseconds (naive t) = t
microseconds (aware t) = t

-- `end - start`: a naive and an aware value cannot be subtracted.
subtract : Instant → Instant → Result ℤ
subtract (naive t) (naive s) = ok (sub_ℕ t s)
subtract (aware t) (aware s) = ok (sub_ℕ t s)
subtract (naive t) (aware s) = raised type_error
subtract (aware t) (naive s) = raised type_error

unfoldable pub replace_z : String → String
replace_z String.[] = ""
replace_z (String.◌∷◌ c s) =
    let rest = replace_z s in if String.◌∷◌ c "" == "Z" then "+00:00" <> rest else String.◌∷◌ c rest

-- In microseconds; `none` is a text that is no date.
unfoldable pub elapsed : Platform → String → String → Result (Option ℤ)
unfolding subtract
elapsed py earlier later = elim (py.fromisoformat (replace_z earlier)) [
  | none ↦ ok none
  | some start ↦ elim (py.fromisoformat (replace_z later)) [
    | none ↦ ok none
    | some end ↦ do d ← subtract end start; ok (some d)
  ]
]

join : List String → String
join [] = ""
join (s ∷ []) = s
join (s ∷ t ∷ ts) = s <> ", " <> join (t ∷ ts)

-- The gates whose window cannot be read.
unfoldable pub unreadable_gates : List VerificationGate → List VerificationGate
unreadable_gates = keep (λ g. is_none (duration_seconds g.window))

-- The longest window that can be read, or 0.
unfoldable pub required_window : List VerificationGate → ℕ
required_window [] = 0
required_window (g ∷ gs) = elim (duration_seconds g.window) [
  | none ↦ required_window gs
  | some n ↦ max n (required_window gs)
]

unfoldable pub elapsed_findings : ℕ → Option ℤ → List Finding
elapsed_findings required none =
    record { code = Code.integrity_window_unreadable; location = "observed_at" } ∷ []
elapsed_findings required (some d) =
    if ltb_ℤ d 0
    then record { code = Code.integrity_window_inverted; location = "observed_at" } ∷ []
    else when (ltb_ℤ d (required * 1_000_000))
        (record { code = Code.integrity_window_too_short; location = "observed_at" } ∷ [])

unfoldable pub window_findings :
    Platform → DesiredState → LiveState → LiveState → Result (List Finding)
unfolding join
window_findings py state live baseline =
    let gates = state.bundle.gates in
    let bad = unreadable_gates gates in
    let unreadable = when (not (is_nil bad)) (
      record {
        code = Code.integrity_window_unreadable;
        location = join (sorted (map (λ (g : VerificationGate). g.name) bad));
      }
      ∷ []) in
    do
      d ← elapsed py baseline.observed_at live.observed_at
      ok (unreadable ++ elapsed_findings (required_window gates) d)

-- The counters, compared as sets and then reading by reading.
unfoldable pub reading_findings :
    List String → Dict IntegrityReading → Dict IntegrityReading → List Finding
reading_findings declared read based =
    map (λ c. record { code = Code.integrity_counter_unread; location = c })
      (sorted (keep (λ c. not (has_key c read)) declared))
    ++ map (λ c. record { code = Code.integrity_counter_unwatched; location = c })
        (sorted (keep (λ c. not (contains c declared)) (map (λ kv. kv.0) read)))
    ++ flat_map (delta_findings based read) (sorted (keep (λ c. has_key c read) declared))

unfoldable pub integrity_findings :
    Platform → DesiredState → LiveState → Option LiveState → Result (List Finding)
integrity_findings py state live none =
    ok (record { code = Code.integrity_baseline_absent; location = "baseline" } ∷ [])
integrity_findings py state live (some baseline) = do
  windows ← window_findings py state live baseline
  ok (reading_findings (integrity_counters state) (readings live) (readings baseline) ++ windows)
