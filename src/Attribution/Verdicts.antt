-- ===== src/Attribution/Verdicts.antt =====
-- What the derived verdicts mean.
use Prim.Native.String.{◌++◌ as ◌<>◌}
use package.text.Mathlib.TextLemmas.{cons-append, cons≢nil}
use mathlib.Core.Option.{some-injective}
use dotmac_observability.Prelude.{
  ℕ, String, Bool, true, false, not, ◌&&◌, ◌==◌, ◌≡◌, ◌≢◌, ◌↔◌, refl, sym, ap, ◌∙◌, inl, inr, arith,
  eq_iff, eqb_iff, Option, none, some, is_none, Bool-cases, Option-cases, Dict, lookup,
  if◌then◌else◌,
}
use dotmac_observability.Attribution.{
  absent, discharged, refused, derive_verdict, Payload, text, int, bool, float, null, object, array,
  other, named_text, discharges_rotation_interlock,
}

-- A scan derives absent exactly when it was attempted and completed, had no error and found
-- nothing.
pub derive_verdict-absent_iff :
    (attempted completed : Bool) (errors found : ℕ)
    → (derive_verdict attempted completed errors found ≡ absent)
      ↔ ((attempted ≡ true) × (completed ≡ true) × (errors ≡ 0) × (found ≡ 0))
unfolding derive_verdict
derive_verdict-absent_iff attempted completed errors found =
    ground (arith, eqb_iff errors 0, eqb_iff found 0)

-- A text that is not empty.
abbrev pub IsNamed : Option Payload → Type 0
IsNamed o = (s : String) × (o ≡ some (text s)) × (s ≢ "")

-- The retained observation is the one that the envelope names, and it names both artifacts.
pub record Discharged (digest : Dict Payload → String) (envelope : Dict Payload)
    (observation : Option (Dict Payload)) : Type 0 where
  pub resolved : Dict Payload
  pub given : observation ≡ some resolved
  pub named : lookup "observation_digest" envelope ≡ some (text ("sha256:" <> digest resolved))
  pub collector : IsNamed (lookup "collector_artifact_digest" resolved)
  pub source : IsNamed (lookup "source_artifact_digest" resolved)

named_text-some :
    (o : Option Payload) (s : String) → named_text o ≡ some s → (o ≡ some (text s)) × (s ≢ "")
unfolding named_text
named_text-some none s h = absurd (cc)
named_text-some (some (int n)) s h = absurd (cc)
named_text-some (some (bool b)) s h = absurd (cc)
named_text-some (some float) s h = absurd (cc)
named_text-some (some null) s h = absurd (cc)
named_text-some (some (object ms)) s h = absurd (cc)
named_text-some (some (array es)) s h = absurd (cc)
named_text-some (some (other t)) s h = absurd (cc)
named_text-some (some (text t)) s h = elim (Bool-cases (t == "")) [
  | inl empty ↦ absurd (cc (rw empty at h))
  | inr full ↦
      let same : t ≡ s = some-injective t s (rw full at h) in
      (ap (λ x. some (text x)) same, ground (arith, eq_iff t "", full, same))
]

IsNamed-named_text : (o : Option Payload) → is_none (named_text o) ≡ false → IsNamed o
IsNamed-named_text o h = elim (Option-cases (named_text o)) [
  | inl e ↦ absurd (cc (rw e at h))
  | inr (s, e) ↦ let (p, n) = named_text-some o s e in (s, p, n)
]

named_text-text : (s : String) → s ≢ "" → named_text (some (text s)) ≡ some s
unfolding named_text
named_text-text s n = ground (arith, eq_iff s "", n)

named_text-IsNamed : (o : Option Payload) → IsNamed o → is_none (named_text o) ≡ false
named_text-IsNamed o (s, e, n) =
    ap (λ p. is_none (named_text p)) e ∙ ap is_none (named_text-text s n)

prefixed-nonempty : (d : String) → "sha256:" <> d ≢ ""
prefixed-nonempty d e = cons≢nil (sym (cons-append "s" "ha256:" d) ∙ e)

two_named :
    (b c : Bool)
    → (if not b && not c then discharged else refused) ≡ discharged
    → (b ≡ false) × (c ≡ false)
two_named true c h = absurd (cc)
two_named false true h = absurd (cc)
two_named false false h = (refl, refl)

from_discharged :
    (digest : Dict Payload → String) (envelope : Dict Payload) (observation : Option (Dict Payload))
    → discharges_rotation_interlock digest envelope observation ≡ discharged
    → Discharged digest envelope observation
unfolding discharges_rotation_interlock
from_discharged digest envelope observation h =
    elim (Option-cases (named_text (lookup "observation_digest" envelope))) [
      | inl e ↦ absurd (cc (rw (e, discharges_rotation_interlock) at h))
      | inr (named, e) ↦ elim (Option-cases observation) [
        | inl p ↦ absurd (cc (rw (e, p, discharges_rotation_interlock) at h))
        | inr (o, p) ↦ elim (Bool-cases ("sha256:" <> digest o == named)) [
          | inr differs ↦ absurd (cc (rw (e, p, differs, discharges_rotation_interlock) at h))
          | inl same ↦
              let both = two_named _ _ (rw (e, p, same, discharges_rotation_interlock) at h) in
              record {
                resolved = o;
                given = p;
                named =
                    (named_text-some _ named e).0
                    ∙ ap (λ x. some (text x)) (sym ((eq_iff _ _).0 same));
                collector = IsNamed-named_text _ both.0;
                source = IsNamed-named_text _ both.1;
              }
        ]
      ]
    ]

-- Whatever the digest is, the interlock is discharged exactly when an observation is given, the
-- envelope names its digest, and it names both artifacts by a text that is not empty.
pub discharges-Discharged :
    (digest : Dict Payload → String) (envelope : Dict Payload) (observation : Option (Dict Payload))
    → (discharges_rotation_interlock digest envelope observation ≡ discharged)
      ↔ Discharged digest envelope observation
unfolding discharges_rotation_interlock
discharges-Discharged digest envelope observation = (
  λ h. from_discharged digest envelope observation h,
  λ d.
      rw
        (
          ap named_text d.named
              ∙ named_text-text ("sha256:" <> digest d.resolved)
                  (prefixed-nonempty (digest d.resolved)),
          d.given,
          (eq_iff ("sha256:" <> digest d.resolved) ("sha256:" <> digest d.resolved)).1 refl,
          named_text-IsNamed (lookup "collector_artifact_digest" d.resolved) d.collector,
          named_text-IsNamed (lookup "source_artifact_digest" d.resolved) d.source,
          discharges_rotation_interlock,
        )
        refl,
)
