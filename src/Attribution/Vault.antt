-- ===== src/Attribution/Vault.antt =====
-- `RedactionVault` and `_walk`. The vault is the list of its values; the key path of a refusal is a
-- message and left out.
use package.text.Mathlib.Text.{starts_with}
use dotmac_observability.Prelude.{
  String, Bool, false, ◌||◌, ◌==◌, Option, none, some, List, [], ◌∷◌, ◌++◌, contains, if◌then◌else◌,
}
use dotmac_observability.Result.{Result, ok, raised, leak_refusal}
use dotmac_observability.Attribution.{
  Payload, Members, Elements, text, int, bool, float, null, object, array, other, no_member, member,
  no_element, element,
}

-- `poison`
unfoldable pub poison : Option String → List String → List String
poison none vault = vault
poison (some value) vault =
    if value == "" then vault else if contains value vault then vault else value ∷ vault

-- `poisoned in text`
unfoldable pub occurs : String → String → Bool
occurs poisoned String.[] = poisoned == ""
occurs poisoned (String.◌∷◌ c s) = starts_with (String.◌∷◌ c s) poisoned || occurs poisoned s

-- The texts that `_walk` yields: keys and values.
unfoldable mutual
  pub walk : Payload → List String
  walk (text s) = s ∷ []
  walk (int n) = []
  walk (bool b) = []
  walk float = []
  walk null = []
  walk (object ms) = walk_members ms
  walk (array es) = walk_elements es
  walk (other s) = s ∷ []

  pub walk_members : Members → List String
  walk_members no_member = []
  walk_members (member key value rest) = (key ∷ walk value) ++ walk_members rest

  pub walk_elements : Elements → List String
  walk_elements no_element = []
  walk_elements (element value rest) = walk value ++ walk_elements rest

unfoldable pub any_occurs : List String → String → Bool
unfolding occurs
any_occurs [] t = false
any_occurs (poisoned ∷ vault) t = occurs poisoned t || any_occurs vault t

unfoldable pub any_poisoned : List String → List String → Bool
unfolding any_occurs
any_poisoned vault [] = false
any_poisoned vault (t ∷ ts) = any_occurs vault t || any_poisoned vault ts

unfoldable pub assert_clean : List String → Payload → Result (Unit {0})
unfolding walk any_poisoned
assert_clean vault payload =
    if any_poisoned vault (walk payload) then raised leak_refusal else ok tt
