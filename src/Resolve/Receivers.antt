-- ===== src/Resolve/Receivers.antt =====
-- The integrations, each against the delivery binding that its credential reference names.
use Prim.Native.Char.{code}
use Prim.Native.String.{◌++◌ as ◌<>◌}
use dotmac_observability.Prelude.{
  String, Bool, true, false, not, ◌&&◌, ◌==◌, ◌!=◌, Option, none, some, List, [], ◌∷◌, map,
  flat_map, keep, when, is_none, leb, eqb, if◌then◌else◌, Dict, lookup, from_pairs,
}
use dotmac_observability.Finding.{Finding, Code}
use dotmac_observability.Model.{PrivateInventory, ReceiverBinding, Receiver, Integration}

unfoldable pub receiver_bindings : PrivateInventory → Dict ReceiverBinding
receiver_bindings inventory =
    from_pairs (map (λ (b : ReceiverBinding). (b.credential_ref, b)) inventory.receivers)

-- `[0-9]+` to the end of the text; the pattern's `$` lets one newline stand behind it.
integer_digits : Bool → String → Bool
integer_digits seen String.[] = seen
integer_digits seen (String.◌∷◌ c s) =
    if leb b'0' (code c) && leb (code c) b'9'
    then integer_digits true s
    else seen && eqb (code c) 10 && s == ""

-- `_INTEGER.match`.
unfoldable pub is_integer : String → Bool
unfolding integer_digits
is_integer String.[] = false
is_integer (String.◌∷◌ c s) =
    if eqb (code c) b'-' then integer_digits false s else integer_digits false (String.◌∷◌ c s)

unfoldable pub has_chat_id : Option String → Bool
has_chat_id none = false
has_chat_id (some destination) = is_integer destination

-- What the kind of an integration asks of its binding's destination.
unfoldable pub destination_findings : String → String → Option String → List Finding
destination_findings location kind destination =
    if kind == "telegram"
    then when (not (has_chat_id destination))
        (record { code = Code.receiver_chat_id; location = location } ∷ [])
    else when (kind != "webhook" && is_none destination)
        (record { code = Code.receiver_no_destination; location = location } ∷ [])

-- One round of the inner loop.
unfoldable pub integration_findings : Dict ReceiverBinding → String → Integration → List Finding
integration_findings receivers location i = elim (lookup i.credential_ref receivers) [
  | none ↦ record { code = Code.resolution_missing; location = location } ∷ []
  | some b ↦ destination_findings location i.kind b.destination
]

unfoldable pub receiver_findings : Dict ReceiverBinding → Receiver → List Finding
receiver_findings receivers r =
    flat_map (integration_findings receivers ("routing/receivers.toml#" <> r.name)) r.integrations

unfoldable pub all_integrations : List Receiver → List Integration
all_integrations receivers = flat_map (λ (r : Receiver). r.integrations) receivers

-- `used_receivers`.
unfoldable pub used_receivers : Dict ReceiverBinding → List Integration → List String
used_receivers receivers is =
    keep (λ ref. not (is_none (lookup ref receivers)))
      (map (λ (i : Integration). i.credential_ref) is)
