-- ===== src/LiveVerify/Integrity/Steady.antt =====
-- When condition 3 finds nothing.
use dotmac_observability.Prelude.{
  ℕ, ◌*◌, ◌<◌, ◌≤◌, String, ◌≡◌, refl, sym, ap, ◌∙◌, ◌↔◌, Bool, true, false, not, Option, none,
  some, List, [], ◌∷◌, arith, inl, inr, Option-cases, All, All-iff, All-zip, All-map, keep,
  flat_map, map, flat_map-eq-nil, append-eq-nil, when-is_nil, keep-eq-nil, keep-eq_self, All-sorted,
  sorted-eq-nil, Dict, lookup, has_key, contains, sorted, ℤ, pos, negsuc,
}
use mathlib.Core.Path.{subst, subst₂}
use mathlib.Core.Option.{some-injective}
use dotmac_observability.Finding.{Finding, Code}
use dotmac_observability.Result.{ok, ok-injective, Result-cases}
use dotmac_observability.Platform.{Platform}
use dotmac_observability.Model.{DesiredState}
use dotmac_observability.LiveVerify.Records.{LiveState, IntegrityReading}
use dotmac_observability.LiveVerify.Derive.{integrity_counters}
use dotmac_observability.LiveVerify.Integrity.{
  readings, counter_findings, delta_findings, elapsed, unreadable_gates, required_window,
  elapsed_findings, window_findings, reading_findings, integrity_findings,
}

-- One counter did not move, from a baseline that is not zero and in one process.
pub record Unmoved (before after : IntegrityReading) : Type 0 where
  pub nonzero : 0 < before.value
  pub continuous : after.process_start_time ≡ before.process_start_time
  pub unchanged : after.value ≡ before.value

-- Both read-backs carry the counter, and it did not move between them.
abbrev pub CounterHolds : Dict IntegrityReading → Dict IntegrityReading → String → Type 0
CounterHolds read based counter =
    (before after : IntegrityReading) × (lookup counter based ≡ some before)
    × (lookup counter read ≡ some after)
    × Unmoved before after

pub record ReadingsHold (declared : List String) (read based : Dict IntegrityReading) : Type 0 where
  pub counters : All (CounterHolds read based) declared
  pub watched : All (λ kv. contains kv.0 declared ≡ true) read

-- The readings lie at least the longest window apart, and every window can be read.
pub record WindowHolds (py : Platform) (state : DesiredState) (live baseline : LiveState)
    : Type 0 where
  pub readable : unreadable_gates state.bundle.gates ≡ []
  pub elapsed_microseconds : ℕ
  pub measured :
      elapsed py baseline.observed_at live.observed_at ≡ ok (some (pos elapsed_microseconds))
  pub long_enough : required_window state.bundle.gates * 1_000_000 ≤ elapsed_microseconds

-- A baseline was recorded, no declared counter moved since, and long enough was waited.
abbrev pub IntegrityHolds : Platform → DesiredState → LiveState → Option LiveState → Type 0
IntegrityHolds py state live none = ⊥
IntegrityHolds py state live (some b) =
    ReadingsHold (integrity_counters state) (readings live) (readings b)
    × WindowHolds py state live b

counter-eq-nil :
    (before after : IntegrityReading) → (counter_findings before after ≡ []) ↔ Unmoved before after
unfolding counter_findings
counter-eq-nil before after = (λ h. ground arith, λ h. ground arith)

map_nil {ℓ κ} : {A : Type ℓ} {B : Type κ} (f : A → B) (xs : List A) → (map f xs ≡ []) ↔ (xs ≡ [])
map_nil f [] = (λ h. refl, λ h. refl)
map_nil f (x ∷ xs) = (λ h. cc, λ h. cc)

delta-eq-nil :
    (read based : Dict IntegrityReading) (counter : String)
    → (has_key counter read ≡ true) × (delta_findings based read counter ≡ [])
      ↔ CounterHolds read based counter
unfolding delta_findings
delta-eq-nil read based counter = elim (Option-cases (lookup counter read)) [
  | inl unread ↦ rw (unread, delta_findings) (λ h. absurd (cc h.0), λ h. absurd (cc h.3))
  | inr (after, e) ↦ elim (Option-cases (lookup counter based)) [
    | inl absent ↦ rw (e, absent, delta_findings) (λ h. absurd (cc h.1), λ h. absurd (cc h.2))
    | inr (before, p) ↦
        let unmoved = counter-eq-nil before after in
        rw (e, p, delta_findings)
          (
            λ h. (before, after, refl, refl, unmoved.0 h.1),
            λ h. (
              ground (arith, e),
              unmoved.1 (
                  subst₂ Unmoved (sym (some-injective before h.0 h.2))
                    (sym (some-injective after h.1 h.3)) h.4),
            ),
          )
  ]
]

not-false : (b : Bool) → (not b ≡ false) ↔ (b ≡ true)
not-false b = ground arith

-- What is reported of the texts in a list that fail a test.
failing-eq-nil :
    (f : String → Finding) (p : String → Bool) (xs : List String)
    → (map f (sorted (keep (λ c. not (p c)) xs)) ≡ []) ↔ All (λ c. p c ≡ true) xs
failing-eq-nil f p xs =
    let kept = keep-eq-nil (λ c. not (p c)) xs in
    let tests = All-iff _ _ (λ c. not-false (p c)) xs in
    (
      λ h. tests.0 (kept.0 ((sorted-eq-nil _).0 ((map_nil f _).0 h))),
      λ h. (map_nil f _).1 ((sorted-eq-nil _).1 (kept.1 (tests.1 h))),
    )

-- Where every declared counter was read, the loop goes over all of them.
deltas-eq-nil :
    (read based : Dict IntegrityReading) (declared : List String)
    → All (λ c. has_key c read ≡ true) declared
    → (flat_map (delta_findings based read) (sorted (keep (λ c. has_key c read) declared)) ≡ [])
      ↔ All (λ c. delta_findings based read c ≡ []) declared
deltas-eq-nil read based declared known =
    let all = keep-eq_self (λ c. has_key c read) declared known in
    let P = λ (c : String). delta_findings based read c ≡ [] in
    (
      λ h. subst (All P) all ((All-sorted P _).0 ((flat_map-eq-nil _ _).0 h)),
      λ h. (flat_map-eq-nil _ _).1 ((All-sorted P _).1 (subst (All P) (sym all) h)),
    )

reading_findings-eq-nil :
    (declared : List String) (read based : Dict IntegrityReading)
    → (reading_findings declared read based ≡ []) ↔ ReadingsHold declared read based
unfolding reading_findings
reading_findings-eq-nil declared read based =
    let unread =
      failing-eq-nil (λ c. record { code = Code.integrity_counter_unread; location = c })
        (λ c. has_key c read) declared in
    let unwatched =
      failing-eq-nil (λ c. record { code = Code.integrity_counter_unwatched; location = c })
        (λ c. contains c declared) (map (λ kv. kv.0) read) in
    let keys =
      All-map (λ c. contains c declared ≡ true) (λ (kv : String × IntegrityReading). kv.0) read in
    let both =
      All-zip (λ c. has_key c read ≡ true) (λ c. delta_findings based read c ≡ []) declared in
    let holds = All-iff _ _ (delta-eq-nil read based) declared in
    (
      λ h.
          let r = (append-eq-nil _ _).0 h in
          let q = (append-eq-nil _ _).0 r.0 in
          let known = unread.0 q.0 in
          record {
            counters = holds.0 (both.0 (known, (deltas-eq-nil read based declared known).0 r.1));
            watched = keys.0 (unwatched.0 q.1);
          },
      λ h.
          let r = both.1 (holds.1 h.counters) in
          (append-eq-nil _ _).1 (
            (append-eq-nil _ _).1 (unread.1 r.0, unwatched.1 (keys.1 h.watched)),
            (deltas-eq-nil read based declared r.0).1 r.1,
          ),
    )

elapsed_findings-eq-nil :
    (required : ℕ) (d : Option ℤ)
    → (elapsed_findings required d ≡ [])
      ↔ ((n : ℕ) × (d ≡ some (pos n)) × (required * 1_000_000 ≤ n))
unfolding elapsed_findings
elapsed_findings-eq-nil required none = (λ h. absurd (cc), λ h. absurd (cc h.1))
elapsed_findings-eq-nil required (some (pos n)) =
    (λ h. (n, refl, ground arith), λ h. ground (arith, h.1))
elapsed_findings-eq-nil required (some (negsuc n)) = (λ h. absurd (cc), λ h. absurd (cc h.1))

window_findings-eq-nil :
    (py : Platform) (state : DesiredState) (live baseline : LiveState)
    → (window_findings py state live baseline ≡ ok []) ↔ WindowHolds py state live baseline
unfolding window_findings
window_findings-eq-nil py state live baseline =
    let gates = state.bundle.gates in
    elim (Result-cases (elapsed py baseline.observed_at live.observed_at)) [
      | inr (e, p) ↦ rw p (λ h. absurd (cc), λ h. absurd (cc (p, h.measured)))
      | inl (d, p) ↦
          let found = elapsed_findings-eq-nil (required_window gates) d in
          rw p (
            λ h.
                let r = (append-eq-nil _ _).0 (ok-injective h) in
                let q = found.0 r.1 in
                record {
                  readable = (when-is_nil _ (unreadable_gates gates)).0 r.0;
                  elapsed_microseconds = q.0;
                  measured = p ∙ ap ok q.1;
                  long_enough = q.2;
                },
            λ h. ap ok (
                (append-eq-nil _ _).1 (
                  (when-is_nil _ (unreadable_gates gates)).1 h.readable,
                  found.1
                      (h.elapsed_microseconds, ok-injective (sym p ∙ h.measured), h.long_enough),
                )),
          )
    ]

-- Condition 3 returns no finding exactly when there is a baseline, each declared counter is read
-- in it and now with the same value, which is not zero, and the same process start, no undeclared
-- counter is read, each gate's window can be read, and the two read-backs lie at least the longest
-- window apart.
pub integrity_findings-eq-nil :
    (py : Platform) (state : DesiredState) (live : LiveState) (baseline : Option LiveState)
    → (integrity_findings py state live baseline ≡ ok []) ↔ IntegrityHolds py state live baseline
unfolding integrity_findings
integrity_findings-eq-nil py state live none = (λ h. absurd (cc), λ h. absurd h)
integrity_findings-eq-nil py state live (some b) =
    let readings_nil =
      reading_findings-eq-nil (integrity_counters state) (readings live) (readings b) in
    let window = window_findings-eq-nil py state live b in
    elim (Result-cases (window_findings py state live b)) [
      | inr (e, p) ↦ rw p (λ h. absurd (cc), λ h. absurd (cc (p, window.1 h.1)))
      | inl (windows, p) ↦ rw p (
        λ h.
            let r = (append-eq-nil _ _).0 (ok-injective h) in
            (readings_nil.0 r.0, window.0 (p ∙ ap ok r.1)),
        λ h.
            ap ok ((append-eq-nil _ _).1 (readings_nil.1 h.0, ok-injective (sym p ∙ window.1 h.1))),
      )
    ]
