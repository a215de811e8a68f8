-- ===== src/Config/Gateway.antt =====
-- The gateway of a network (mustGetGatewayIP of ovs/ovs_config.go).
use dovesnap.Prelude.{String, List, ◌∷◌, [], Option, some, ◌≡◌, ◌≢◌, ◌⊎◌, arith, eq_iff}
use dovesnap.Prelude.Text.{split, join, Lacks}
use dovesnap.Prelude.Text.Split.{split-join, split_empty}
use dovesnap.Outcome.{returned}
use dovesnap.Config.{
  CreateNetworkRequest, address_and_mask, split_gateway, must_get_gateway_ip,
  must_get_gateway_ip_from_data,
}

abbrev with_mask : String → String → String
with_mask ip mask = join "/" (ip ∷ mask ∷ [])

module _ (ip mask : String) (li : Lacks "/" ip) (lm : Lacks "/" mask) where
  split-with_mask : split "/" (with_mask ip mask) ≡ ip ∷ mask ∷ []
  split-with_mask = split-join "/" ip (mask ∷ []) li (lm, tt)

  with_mask-ne-nil : with_mask ip mask ≢ ""
  with_mask-ne-nil e = cc (e, split-with_mask, split_empty "/")

  split_gateway-with_mask :
      ip ≢ "" → mask ≢ "" → split_gateway (with_mask ip mask) ≡ returned (ip, mask)
  unfolding split_gateway address_and_mask
  split_gateway-with_mask h k = rw split-with_mask (
      ground (arith, eq_iff ip "", eq_iff mask "", eq_iff (with_mask ip mask) "", with_mask-ne-nil))

-- An IPv4 gateway `ip/mask` of a request, both parts there and without a slash, is taken whatever
-- the IPv6 data say, and comes apart into the two.
pub ipv4_gateway_first :
    (r : CreateNetworkRequest) (ip mask : String) (rest : List (Option String))
    → r.ipv4_data ≡ some (with_mask ip mask) ∷ rest
    → ip ≢ ""
    → mask ≢ ""
    → Lacks "/" ip
    → Lacks "/" mask
    → must_get_gateway_ip r ≡ returned (ip, mask)
unfolding must_get_gateway_ip must_get_gateway_ip_from_data
ipv4_gateway_first r ip mask rest e h k li lm = rw e (
    ground (
      arith,
      eq_iff (with_mask ip mask) "",
      with_mask-ne-nil ip mask li lm,
      split_gateway-with_mask ip mask li lm h k,
    ))

address_and_mask-eq-some :
    (parts : List String) (ip mask : String)
    → address_and_mask parts ≡ some (ip, mask)
    → (ip ≢ "") × (mask ≢ "")
unfolding address_and_mask
address_and_mask-eq-some (a ∷ b ∷ []) ip mask e =
    ground (arith, eq_iff a "", eq_iff b "", eq_iff ip "", eq_iff mask "")
address_and_mask-eq-some [] ip mask e = absurd (cc)
address_and_mask-eq-some (_ ∷ []) ip mask e = absurd (cc)
address_and_mask-eq-some (_ ∷ _ ∷ _ ∷ _) ip mask e = absurd (cc)

split_gateway-eq-returned :
    (given ip mask : String)
    → split_gateway given ≡ returned (ip, mask)
    → ((ip ≡ "") × (mask ≡ "")) ⊎ ((ip ≢ "") × (mask ≢ ""))
unfolding split_gateway
split_gateway-eq-returned given ip mask e =
    ground (arith, address_and_mask-eq-some (split "/" given) ip mask)

-- A network is never left with an address and no mask, or a mask and no address: an accepted request
-- gives both or neither.
pub gateway_has_mask :
    (r : CreateNetworkRequest) (ip mask : String)
    → must_get_gateway_ip r ≡ returned (ip, mask)
    → ((ip ≡ "") × (mask ≡ "")) ⊎ ((ip ≢ "") × (mask ≢ ""))
unfolding must_get_gateway_ip
gateway_has_mask r ip mask e = split_gateway-eq-returned _ ip mask e
