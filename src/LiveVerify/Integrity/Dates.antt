-- ===== src/LiveVerify/Integrity/Dates.antt =====
-- What subtracting the dates of two read-backs may raise.
use dotmac_observability.Prelude.{◌≡◌, String, some, Option-cases, inl, inr}
use dotmac_observability.Result.{ok, raised, Exception, type_error, ◌>>=◌}
use dotmac_observability.Platform.{Platform, Instant, naive, aware}
use dotmac_observability.LiveVerify.Integrity.{subtract, replace_z, elapsed}

-- One of the two has an offset, the other has none.
abbrev pub Mixed : Instant → Instant → Type 0
Mixed (naive s) (aware t) = Unit
Mixed (aware s) (naive t) = Unit
Mixed (naive s) (naive t) = ⊥
Mixed (aware s) (aware t) = ⊥

subtract_raised :
    (later earlier : Instant) (e : Exception)
    → (do d ← subtract later earlier; ok (some d)) ≡ raised e
    → (e ≡ type_error) × Mixed earlier later
unfolding subtract
subtract_raised (naive t) (naive s) e h = absurd (cc)
subtract_raised (aware t) (aware s) e h = absurd (cc)
subtract_raised (naive t) (aware s) e h = (cc, tt)
subtract_raised (aware t) (naive s) e h = (cc, tt)

pub elapsed_raised :
    (py : Platform) (earlier later : String) (e : Exception)
    → elapsed py earlier later ≡ raised e
    → (e ≡ type_error)
      × ((s t : Instant) × (py.fromisoformat (replace_z earlier) ≡ some s)
          × (py.fromisoformat (replace_z later) ≡ some t)
          × Mixed s t)
unfolding elapsed
elapsed_raised py earlier later e h = elim (Option-cases (py.fromisoformat (replace_z earlier))) [
  | inl p ↦ absurd (cc (rw (p, elapsed) at h))
  | inr (s, p) ↦ elim (Option-cases (py.fromisoformat (replace_z later))) [
    | inl q ↦ absurd (cc (rw (p, q, elapsed) at h))
    | inr (t, q) ↦
        let (type, mixed) = subtract_raised t s e (rw (p, q, elapsed) at h) in
        (type, (s, t, p, q, mixed))
  ]
]
