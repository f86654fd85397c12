-- ===== src/Receipt/Authorized.antt =====
-- What a receipt without findings was held to: the approved plan, images and tree, and what its
-- outcome asserts.
use dotmac_observability.Prelude.{
  ◌≡◌, ◌↔◌, refl, sym, ap, ◌∙◌, String, Bool, true, false, not, ◌&&◌, Option, none, some, List, [],
  ◌∷◌, ◌++◌, arith, eq_iff, inl, inr, Bool-cases, Option-cases, is_nil, is_nil-eq-true, is_none,
  append-eq-nil, All,
}
use mathlib.Core.Path.{subst}
use mathlib.Core.Option.{some-injective}
use dotmac_observability.Finding.{Finding}
use dotmac_observability.Result.{ok, ok-injective, Result-cases}
use dotmac_observability.Platform.{Platform}
use dotmac_observability.LiveVerify.Records.{Verification}
use dotmac_observability.LiveVerify.Tree.{RenderedTree, tree_digest}
use dotmac_observability.Receipt.{
  Receipt, Outcome, accepted, rolled_back, failed, Observed, ImageRecord,
}
use dotmac_observability.Receipt.Checks.{
  release_findings, plan_findings, execution_findings, image_findings, digest_findings,
  accepted_findings, all_in, has_image, Expected, receipt_findings,
}
use dotmac_observability.Receipt.Believable.{Asserted, accepted_findings-eq-nil}

-- Each image of either list equals one of the other.
abbrev pub SameImages : List ImageRecord → List ImageRecord → Type 0
SameImages as_ bs = All (λ a. has_image a bs ≡ true) as_ × All (λ b. has_image b as_ ≡ true) bs

pub record Believable (py : Platform) (r : Receipt) (e : Expected) : Type 0 where
  pub previous :
      (o : Observed)
      → r.observed ≡ some o
      → is_none o.release.previous && not e.first_promotion ≡ false
  pub plan : (d : String) → e.authorized_plan_digest ≡ some d → r.authorization.plan_digest ≡ d
  pub execution :
      (d : String)
      → e.authorized_execution_plan_digest ≡ some d
      → r.authorization.execution_plan_digest ≡ some d
  pub images : (is : List ImageRecord) → e.authorized_images ≡ some is → SameImages r.images is
  pub tree : (t : RenderedTree) → e.tree ≡ some t → r.rendered_digest ≡ tree_digest py t
  pub asserted : r.outcome ≡ accepted → Asserted r e.verification

release_findings-eq-nil :
    (r : Receipt) (first : Bool)
    → (release_findings r first ≡ [])
      ↔ ((o : Observed) → r.observed ≡ some o → is_none o.release.previous && not first ≡ false)
unfolding release_findings
release_findings-eq-nil r first = elim (Option-cases r.observed) [
  | inl bare ↦ (λ h o e. absurd (cc), λ h. rw bare refl)
  | inr (o, e) ↦ (
    λ h p q.
        subst (λ (x : Observed). is_none x.release.previous && not first ≡ false)
          (some-injective o p (sym e ∙ q)) (ground (arith, rw e at h)),
    λ h. rw e (ground (arith, h o e)),
  )
]

plan_findings-eq-nil :
    (recorded : String) (plan : Option String)
    → (plan_findings recorded plan ≡ []) ↔ ((d : String) → plan ≡ some d → recorded ≡ d)
unfolding plan_findings
plan_findings-eq-nil recorded none = (λ h d e. absurd (cc), λ h. refl)
plan_findings-eq-nil recorded (some plan) = (
  λ h d e.
      subst (λ x. recorded ≡ x) (some-injective plan d e) (ground (arith, eq_iff recorded plan)),
  λ h. ground (arith, eq_iff recorded plan, h plan refl),
)

execution_findings-eq-nil :
    (recorded plan : Option String)
    → (execution_findings recorded plan ≡ []) ↔ ((d : String) → plan ≡ some d → recorded ≡ some d)
unfolding execution_findings
execution_findings-eq-nil recorded none = (λ h d e. absurd (cc), λ h. refl)
execution_findings-eq-nil none (some plan) = (λ h. absurd (cc), λ h. absurd (cc (h plan refl)))
execution_findings-eq-nil (some digest) (some plan) = (
  λ h d e.
      subst (λ x. some digest ≡ some x) (some-injective plan d e)
        (ap some (ground (arith, eq_iff digest plan))),
  λ h. ground (arith, eq_iff digest plan, some-injective digest plan (h plan refl)),
)

digest_findings-eq-nil :
    (py : Platform) (r : Receipt) (tree : Option RenderedTree)
    → (digest_findings py r tree ≡ [])
      ↔ ((t : RenderedTree) → tree ≡ some t → r.rendered_digest ≡ tree_digest py t)
unfolding digest_findings
digest_findings-eq-nil py r none = (λ h t e. absurd (cc), λ h. refl)
digest_findings-eq-nil py r (some tree) = (
  λ h t e.
      subst (λ x. r.rendered_digest ≡ tree_digest py x) (some-injective tree t e)
        (ground (arith, eq_iff r.rendered_digest (tree_digest py tree))),
  λ h. ground (arith, eq_iff r.rendered_digest (tree_digest py tree), h tree refl),
)

all_in-eq-true :
    (as_ bs : List ImageRecord) → (all_in as_ bs ≡ true) ↔ All (λ a. has_image a bs ≡ true) as_
unfolding all_in
all_in-eq-true [] bs = (λ h. tt, λ h. refl)
all_in-eq-true (a ∷ as_) bs = ground (arith, all_in-eq-true as_ bs)

image_findings-eq-nil :
    (r : Receipt) (approved : Option (List ImageRecord))
    → (image_findings r approved ≡ [])
      ↔ ((is : List ImageRecord) → approved ≡ some is → SameImages r.images is)
unfolding image_findings
image_findings-eq-nil r none = (λ h is e. absurd (cc), λ h. refl)
image_findings-eq-nil r (some approved) =
    let one = all_in-eq-true r.images approved in
    let other = all_in-eq-true approved r.images in
    (
      λ h is e.
          subst (SameImages r.images) (some-injective approved is e)
            (one.0 (ground arith), other.0 (ground arith)),
      λ h. let s = h approved refl in rw (one.1 s.0, other.1 s.1) refl,
    )

outcome_findings-eq-nil :
    (r : Receipt) (v : Option Verification) (o : Outcome)
    → r.outcome ≡ o
    → (accepted_findings r v ≡ ok []) ↔ (r.outcome ≡ accepted → Asserted r v)
unfolding accepted_findings
outcome_findings-eq-nil r v accepted e =
    let asserts = accepted_findings-eq-nil r v e in (λ h _. asserts.0 h, λ h. asserts.1 (h e))
outcome_findings-eq-nil r v rolled_back e =
    (λ h a. absurd (cc (e, a)), λ h. simp (e, accepted_findings) refl)
outcome_findings-eq-nil r v failed e =
    (λ h a. absurd (cc (e, a)), λ h. simp (e, accepted_findings) refl)

module _ (py : Platform) (schema private : Receipt → List Finding) (r : Receipt)
    (e : Expected) where
  -- What comes before the assertions of an accepted receipt.
  abbrev held : List Finding
  held =
      private r
      ++ release_findings r e.first_promotion
      ++ plan_findings r.authorization.plan_digest e.authorized_plan_digest
      ++ execution_findings r.authorization.execution_plan_digest e.authorized_execution_plan_digest
      ++ image_findings r e.authorized_images
      ++ digest_findings py r e.tree

  receipt_parts :
      receipt_findings py schema private r e ≡ ok []
      → (schema r ≡ []) × (held ≡ []) × (accepted_findings r e.verification ≡ ok [])
  unfolding receipt_findings
  receipt_parts h = elim (Bool-cases (is_nil (schema r))) [
    | inr shaped ↦ absurd (cc (ok-injective (rw shaped at h), shaped))
    | inl shapely ↦ elim (Result-cases (accepted_findings r e.verification)) [
      | inr (x, p) ↦ absurd (cc (rw (shapely, p) at h))
      | inl (asserted, p) ↦
          let (first, last) = (append-eq-nil _ asserted).0 (ok-injective (rw (shapely, p) at h)) in
          (is_nil-eq-true _ shapely, first, p ∙ ap ok last)
    ]
  ]

  receipt_of_parts :
      schema r ≡ []
      → held ≡ []
      → accepted_findings r e.verification ≡ ok []
      → receipt_findings py schema private r e ≡ ok []
  unfolding receipt_findings
  receipt_of_parts s h a = rw (s, a, h) refl

  -- Whatever the schema layer and the private-material detector are, receipt_findings returns no
  -- finding exactly when neither of them finds anything, a read-back release has a previous one
  -- unless it is the first promotion, the plan, the execution plan, the images and the tree are
  -- those that were given to hold it to, and, if the outcome is accepted, every check passed, the
  -- targets up are as many as expected, there are rules and all evaluate, the canary was
  -- delivered, a run is named and the verdict, where given, is the repair.
  pub receipt_findings-Believable :
      (receipt_findings py schema private r e ≡ ok [])
      ↔ ((schema r ≡ []) × (private r ≡ []) × Believable py r e)
  receipt_findings-Believable = (
    λ h.
        let (shape, all, asserted) = receipt_parts h in
        let (abcde, f) = (append-eq-nil _ (digest_findings py r e.tree)).0 all in
        let (abcd, i) = (append-eq-nil _ (image_findings r e.authorized_images)).0 abcde in
        let (abc, x) = (append-eq-nil _ _).0 abcd in
        let (ab, p) = (append-eq-nil _ _).0 abc in
        let (a, l) = (append-eq-nil _ _).0 ab in
        (
          shape,
          a,
          record {
            previous = (release_findings-eq-nil r e.first_promotion).0 l;
            plan = (plan_findings-eq-nil _ _).0 p;
            execution = (execution_findings-eq-nil _ _).0 x;
            images = (image_findings-eq-nil r e.authorized_images).0 i;
            tree = (digest_findings-eq-nil py r e.tree).0 f;
            asserted = (outcome_findings-eq-nil r e.verification r.outcome refl).0 asserted;
          },
        ),
    λ (shape, quiet, b).
        receipt_of_parts shape
          (rw
            (
              quiet,
              (release_findings-eq-nil r e.first_promotion).1 b.previous,
              (plan_findings-eq-nil _ _).1 b.plan,
              (execution_findings-eq-nil _ _).1 b.execution,
              (image_findings-eq-nil r e.authorized_images).1 b.images,
              (digest_findings-eq-nil py r e.tree).1 b.tree,
            )
            refl)
          ((outcome_findings-eq-nil r e.verification r.outcome refl).1 b.asserted),
  )
