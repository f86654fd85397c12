-- ===== src/Enumerator/Walks.antt =====
-- A walk of any calls, and what an absent verdict then says.
use mathlib.Core.Path.{subst}
use dotmac_observability.Prelude.{String, Bool, ◌≡◌, sym, ap, ◌∙◌, Option, List, inl, inr}
use dotmac_observability.Result.{Result, ok, ok-injective}
use dotmac_observability.Enumerator.{
  Reply, gives, fails, interrupts, Call, finished, HostSource, Budget, Books, read, list,
  run_program,
}
use dotmac_observability.Enumerator.Bounds.{Within, Returns, Follows, calls-Returns}

finished-injective :
    {A : Type 0} {r s : Result A} → ◌≡◌ {A = Call A} (finished r) (finished s) → r ≡ s
finished-injective h = cc

module _ {W : Type 0} (source : HostSource W) where
  -- The calls of a walk, in any order, each in the books that the one before it left.
  pub data Walk (b : Budget) (start : Books) : Books → Type 0 where
    begins : Walk b start start
    reads :
        {k : Books} (optional : Bool) (path : String) (w : W) (text : Option String) (after : Books)
        → Walk b start k
        → (read source b optional path k w).0 ≡ finished (ok (text, after))
        → Walk b start after
    lists :
        {k : Books} (directory : String) (w : W) (entries : List String) (after : Books)
        → Walk b start k
        → (list source b directory k w).0 ≡ finished (ok (entries, after))
        → Walk b start after
    runs :
        {k : Books} (argv : List String) (w : W) (output : Option String) (after : Books)
        → Walk b start k
        → (run_program source argv k w).0 ≡ finished (ok (output, after))
        → Walk b start after

  same_books :
      {A : Type 0} (b : Budget) (r : Call (A × Books)) (a : A) (after : Books)
      → Returns b r
      → r ≡ finished (ok (a, after))
      → Within b after.ledger
  same_books b r a after (a', k, p, h) q =
      subst (λ (x : Books). Within b x.ledger)
        (ap (λ x. x.1) (ok-injective (finished-injective (sym p ∙ q)))) h

  followed_books :
      {A B : Type 0} (b : Budget) (reply : Reply B) (r : Call (A × Books)) (a : A) (after : Books)
      → Follows b reply r
      → r ≡ finished (ok (a, after))
      → Within b after.ledger
  followed_books b (gives x) r a after h q = same_books b r a after h q
  followed_books b (fails error) r a after h q = same_books b r a after h q
  followed_books b (interrupts name) r a after h q = absurd (cc)

  pub Walk-Within :
      (b : Budget) (start : Books) {last : Books}
      → Within b start.ledger
      → Walk b start last
      → Within b last.ledger
  Walk-Within b start h begins = h
  Walk-Within b start h (reads {k = k} optional path w text after walk e) =
      let (r, _, _) = calls-Returns source b k w (Walk-Within b start h walk) in
      elim (r optional path) [
        | inl (fits, f) ↦ followed_books b (source.read_text path w).0 _ text after f e
        | inr (over, f) ↦ same_books b _ text after f e
      ]
  Walk-Within b start h (lists {k = k} directory w entries after walk e) =
      let (_, l, _) = calls-Returns source b k w (Walk-Within b start h walk) in
      followed_books b (source.list_dir directory w).0 _ entries after (l directory) e
  Walk-Within b start h (runs {k = k} argv w output after walk e) =
      let (_, _, r) = calls-Returns source b k w (Walk-Within b start h walk) in
      followed_books b (source.run argv w).0 _ output after (r argv) e
