-- ===== src/Enumerator/Bounds.antt =====
-- What a call does to a ledger that is within its budget, and whether it returns.
use Prim.Native.String.{count}
use dotmac_observability.Prelude.{
  ℕ, ◌+◌, ◌≤◌, ◌⊎◌, String, Bool, true, false, ◌&&◌, ◌==◌, ◌≡◌, refl, inl, inr, arith, Option, none,
  List, [], ◌∷◌, ◌++◌, length, ltb, contains, Bool-cases,
}
use dotmac_observability.Result.{ok}
use dotmac_observability.Enumerator.{
  Reply, gives, fails, interrupts, Call, finished, interrupted, HostSource, Budget, Ledger, Books,
  observation_error_classes, classify, observation_error, note, spend_file, spend_bytes, noted,
  failed_with, after_read, judge_read, after_list, judge_list, judge_run, read, list, run_program,
}

-- Within the bounds, unless it says that it is exhausted.
abbrev pub Within : Budget → Ledger → Type 0
Within b l = l.exhausted ≡ false → (l.files ≤ b.max_files) × (l.read_bytes ≤ b.max_bytes)

observation_error-known :
    (code : String) → contains (observation_error code) observation_error_classes ≡ true
unfolding observation_error
observation_error-known code =
    elim (Bool-cases (
      contains code
        ("missing" ∷ "denied" ∷ "timeout" ∷ "unsupported" ∷ "parse" ∷ "unknown" ∷ []))) [
          | inl known ↦ rw (known, observation_error) (ground (arith, known))
          | inr other ↦ rw (other, observation_error) refl
        ]

-- Noting an error changes the errors only.
noted-ok :
    (error : Option String) (k : Books)
    → noted error k
      ≡ ok (record k {
        ledger = record k.ledger {
          errors = k.ledger.errors ++ (observation_error (classify error) ∷ []);
        };
      })
unfolding noted note
noted-ok error k = rw (observation_error-known (classify error)) refl

spend_file-Within : (b : Budget) (l : Ledger) → Within b l → Within b (spend_file b l).1
unfolding spend_file
spend_file-Within b l h = elim (Bool-cases (ltb b.max_files (l.files + 1))) [
  | inl over ↦ rw (over, spend_file) (λ e. absurd (cc e))
  | inr under ↦ rw (under, spend_file) (λ e. (ground (arith, under), (h e).1))
]

spend_bytes-Within :
    (size : ℕ) (b : Budget) (l : Ledger) → Within b l → Within b (spend_bytes size b l).1
unfolding spend_bytes
spend_bytes-Within size b l h = elim (Bool-cases (ltb b.max_bytes (l.read_bytes + size))) [
  | inl over ↦ rw (over, spend_bytes) (λ e. absurd (cc e))
  | inr under ↦ rw (under, spend_bytes) (λ e. ((h e).0, ground (arith, under)))
]

-- The call returns, and leaves the ledger within its bounds.
abbrev pub Returns : {A : Type 0} → Budget → Call (A × Books) → Type 0
Returns {A = A} b r = (a : A) × (k : Books) × (r ≡ finished (ok (a, k))) × Within b k.ledger

-- What a call makes of the source's answer: it lets an interrupt through, and returns otherwise.
abbrev pub Follows : {A B : Type 0} → Budget → Reply B → Call (A × Books) → Type 0
Follows b (gives _) r = Returns b r
Follows b (fails _) r = Returns b r
Follows b (interrupts name) r = r ≡ interrupted name

failed_with-Returns :
    {A : Type 0} (a : A) (error : Option String) (b : Budget) (k : Books)
    → Within b k.ledger
    → Returns b (finished (failed_with a error k))
unfolding failed_with
failed_with-Returns a error b k h = (
  a,
  record k {
    ledger = record k.ledger {
      errors = k.ledger.errors ++ (observation_error (classify error) ∷ []);
    };
  },
  rw (noted-ok error k) refl,
  h,
)

after_read-Within :
    (b : Budget) (text : String) (k : Books)
    → Within b k.ledger
    → Within b (after_read b text k).1.ledger
unfolding after_read
after_read-Within b text k h = elim (Bool-cases (spend_bytes (count text) b k.ledger).0) [
  | inl fits ↦ rw (fits, after_read) (spend_bytes-Within (count text) b k.ledger h)
  | inr over ↦ rw (over, after_read) (spend_bytes-Within (count text) b k.ledger h)
]

judge_read-Follows :
    (b : Budget) (optional : Bool) (reply : Reply String) (k : Books)
    → Within b k.ledger
    → Follows b reply (judge_read b optional reply k)
unfolding judge_read
judge_read-Follows b optional (gives text) k h = (_, _, refl, after_read-Within b text k h)
judge_read-Follows b optional (fails error) k h =
    elim (Bool-cases (classify error == "missing" && optional)) [
      | inl missing ↦ rw (missing, judge_read) (none, k, refl, h)
      | inr other ↦ rw (other, judge_read) (failed_with-Returns none error b k h)
    ]
judge_read-Follows b optional (interrupts name) k h = refl

judge_list-Follows :
    (b : Budget) (reply : Reply (List String)) (k : Books)
    → Within b k.ledger
    → Follows b reply (judge_list b reply k)
unfolding judge_list after_list
judge_list-Follows b (gives entries) k h = elim (Bool-cases (ltb b.max_entries (length entries))) [
  | inl over ↦ rw (over, judge_list, after_list) (_, _, refl, λ e. absurd (cc e))
  | inr under ↦ rw (under, judge_list, after_list) (entries, k, refl, h)
]
judge_list-Follows b (fails error) k h = elim (Bool-cases (classify error == "missing")) [
  | inl missing ↦ rw (missing, judge_list) ([], k, refl, h)
  | inr other ↦ rw (other, judge_list) (failed_with-Returns [] error b k h)
]
judge_list-Follows b (interrupts name) k h = refl

judge_run-Follows :
    (b : Budget) (reply : Reply String) (k : Books)
    → Within b k.ledger
    → Follows b reply (judge_run reply k)
unfolding judge_run
judge_run-Follows b (gives output) k h = (_, _, refl, h)
judge_run-Follows b (fails error) k h = failed_with-Returns none error b k h
judge_run-Follows b (interrupts name) k h = refl

module _ {W : Type 0} (source : HostSource W) where
  -- A file is asked of the source only where the budget has one left.
  abbrev pub Reads : Budget → Bool → String → Books → W → Type 0
  Reads b optional path k w =
      let r = (read source b optional path k w).0 in
      (((spend_file b k.ledger).0 ≡ true) × Follows b (source.read_text path w).0 r)
      ⊎ (((spend_file b k.ledger).0 ≡ false) × Returns b r)

  read-Reads :
      (b : Budget) (optional : Bool) (path : String) (k : Books) (w : W)
      → Within b k.ledger
      → Reads b optional path k w
  unfolding read
  read-Reads b optional path k w h = elim (Bool-cases (spend_file b k.ledger).0) [
    | inl fits ↦ inl (
      fits,
      rw (fits, read)
          (judge_read-Follows b optional (source.read_text path w).0
            (record k { ledger = (spend_file b k.ledger).1 }) (spend_file-Within b k.ledger h)),
    )
    | inr over ↦ inr (over, rw (over, read) (none, _, refl, spend_file-Within b k.ledger h))
  ]

  pub calls-Returns :
      (b : Budget) (k : Books) (w : W)
      → Within b k.ledger
      → ((optional : Bool) (path : String) → Reads b optional path k w)
        × ((directory : String)
            → Follows b (source.list_dir directory w).0 (list source b directory k w).0)
        × ((argv : List String) → Follows b (source.run argv w).0 (run_program source argv k w).0)
  unfolding list run_program
  calls-Returns b k w h = (
    λ optional path. read-Reads b optional path k w h,
    λ directory. judge_list-Follows b (source.list_dir directory w).0 k h,
    λ argv. judge_run-Follows b (source.run argv w).0 k h,
  )
