-- ===== src/Semantic/Decommissioned.antt =====
-- `retirement_findings`: no rendered file mentions a retired product. `str.lower` is an argument.
use Prim.Native.String.{◌++◌ as ◌<>◌}
use dotmac_observability.Prelude.{
  String, false, ◌≡◌, ◌↔◌, List, [], ◌∷◌, flat_map, flat_map-eq-nil, when, when-eq-nil, All,
  All-iff,
}
use dotmac_observability.Finding.{Finding, Code}
use dotmac_observability.Model.{DesiredState, RetiredProduct}
use dotmac_observability.LiveVerify.Tree.{RenderedTree}
use dotmac_observability.Attribution.Vault.{occurs}

module _ (lower : String → String) where
  -- One token of a product against one file.
  unfoldable pub mention_findings : String → String → String × String → List Finding
  mention_findings name needle (path, text) =
      when (occurs needle (lower text))
        (record { code = Code.retired_product_referenced; location = path <> "#" <> name } ∷ [])

  unfoldable pub retirement_findings : DesiredState → RenderedTree → List Finding
  unfolding mention_findings
  retirement_findings state tree =
      flat_map
        (λ (product : RetiredProduct).
          flat_map (λ token. flat_map (mention_findings product.name (lower token)) tree)
            product.tokens)
        state.bundle.retired

  -- Whatever the case, the token does not stand in the file.
  abbrev pub Unmentioned : String → String × String → Type 0
  Unmentioned token file = occurs (lower token) (lower file.1) ≡ false

  tokens-eq-nil :
      (name token : String) (tree : RenderedTree)
      → (flat_map (mention_findings name (lower token)) tree ≡ []) ↔ All (Unmentioned token) tree
  unfolding mention_findings
  tokens-eq-nil name token tree =
      let f = flat_map-eq-nil (mention_findings name (lower token)) tree in
      let a =
        All-iff (λ file. mention_findings name (lower token) file ≡ []) (Unmentioned token)
          (λ file. when-eq-nil _ _ _) tree in
      (λ h. a.0 (f.0 h), λ h. f.1 (a.1 h))

  product-eq-nil :
      (tree : RenderedTree) (product : RetiredProduct)
      → (flat_map
            (λ token. flat_map (mention_findings product.name (lower token)) tree)
            product.tokens
          ≡ [])
        ↔ All (λ token. All (Unmentioned token) tree) product.tokens
  product-eq-nil tree product =
      let f =
        flat_map-eq-nil (λ token. flat_map (mention_findings product.name (lower token)) tree)
          product.tokens in
      let a = All-iff _ _ (λ token. tokens-eq-nil product.name token tree) product.tokens in
      (λ h. a.0 (f.0 h), λ h. f.1 (a.1 h))

  -- Whatever lowering a text does, retirement_findings finds nothing exactly when no lowered token
  -- of a retired product occurs in any lowered file of the rendered tree.
  pub retirement_findings-eq-nil :
      (state : DesiredState) (tree : RenderedTree)
      → (retirement_findings state tree ≡ [])
        ↔ All
            (λ (product : RetiredProduct).
              All (λ token. All (Unmentioned token) tree) product.tokens)
            state.bundle.retired
  unfolding retirement_findings
  retirement_findings-eq-nil state tree =
      let f = flat_map-eq-nil _ state.bundle.retired in
      let a = All-iff _ _ (product-eq-nil tree) state.bundle.retired in
      (λ h. a.0 (f.0 h), λ h. f.1 (a.1 h))
