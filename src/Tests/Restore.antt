-- ===== src/Tests/Restore.antt =====
-- The agreement of creation and restoration, at a concrete network.
use dovesnap.Prelude.{
  ℕ, String, Bool, true, false, Option, none, some, List, [], ◌∷◌, ◌≡◌, ◌≢◌, refl, arith, ◌==◌,
  str_eq, eq_iff, if◌then◌else◌,
}
use mathlib.Core.Option
use dovesnap.Prelude.Map.{string_key, lookup}
use dovesnap.Outcome.{returned}
use dovesnap.System.{NetworkInspect}
use dovesnap.State.{NetworkState}
use dovesnap.Config.{
  Leaf, Value, text, object, leaf, flag, CreateNetworkRequest, generic_option, get_generic_option,
  get_stack_mirror_config, get_stack_mirror_config_from_resource,
}
use dovesnap.Config.Network.{
  created_state, new_network_state, resource_network_state, get_network_state_from_resource,
}
use dovesnap.Config.Network.Agreement.{
  SameNetwork, restored, as_inspected, restore_agrees, stack_mirror_config_agrees,
}
use dovesnap.Config.Network.Errors.{error_never_reported}
use dovesnap.Tests.Data.{plain_config, request}

abbrev inspection : NetworkInspect
inspection = record {
  id = "0123456789abcdef";
  name = "testnet";
  options = some (("ovs.bridge.dpid", "0x1") ∷ []);
  ipam_config = ("10.0.0.0/24", "10.0.0.1") ∷ [];
  containers = [];
}

same_options :
    (name : String)
    → lookup name (("ovs.bridge.dpid", text "0x1") ∷ [])
      ≡ Option.map text (lookup name (("ovs.bridge.dpid", "0x1") ∷ []))
unfolding lookup
same_options name = go (str_eq "ovs.bridge.dpid" name)
  where
    go :
        (b : Bool)
        → (if b then some (text "0x1") else none) ≡ Option.map text (if b then some "0x1" else none)
    go true = refl
    go false = refl

same_network : SameNetwork request inspection
unfolding lookup
same_network = record {
  id = refl;
  given = (generic_option, object (("ovs.bridge.dpid", text "0x1") ∷ [])) ∷ [];
  generic = ("ovs.bridge.dpid", text "0x1") ∷ [];
  kept = ("ovs.bridge.dpid", "0x1") ∷ [];
  has_options = refl;
  has_generic = refl;
  has_kept = refl;
  same = same_options;
}

stack_mirror_config_agrees_example :
    get_stack_mirror_config_from_resource plain_config inspection
    ≡ get_stack_mirror_config plain_config request
stack_mirror_config_agrees_example = stack_mirror_config_agrees same_network plain_config

abbrev created : NetworkState
created = created_state plain_config request "odsbr01234" "flat" ("10.0.0.1", "24") 1

accepted : new_network_state (λ _. "1") plain_config request ≡ returned created
unfolding new_network_state dovesnap.Config.must_get_bridge_name dovesnap.Config.truncate_id
    dovesnap.Config.must_get_bridge_mode get_generic_option dovesnap.Config.text_option lookup
    dovesnap.Config.as_text dovesnap.Config.must_get_gateway_ip dovesnap.Config.split_gateway
    dovesnap.Config.must_get_gateway_ip_from_data dovesnap.Config.address_and_mask
    dovesnap.Prelude.Text.split dovesnap.Config.Network.check_dhcp
    dovesnap.Config.Network.must_get_use_dhcp dovesnap.Prelude.Text.true_text
    dovesnap.Config.must_get_uint_from_hex_str dovesnap.Config.Network.must_get_bridge_dpid
    dovesnap.Config.default_uint dovesnap.Prelude.Text.parse_uint dovesnap.Prelude.Text.scan
    dovesnap.Prelude.Text.is_digit dovesnap.Config.is_valid_mode dovesnap.Prelude.Text.concat
    dovesnap.Prelude.Text.to_lower
accepted = refl

no_name : get_generic_option request "ovs.bridge.name" ≡ ""
unfolding get_generic_option dovesnap.Config.text_option lookup dovesnap.Config.as_text
no_name = refl

none-ne-some : {v : String} → none ≡ some v → ⊥
none-ne-some e = cc

no_mode : lookup "ovs.bridge.mode" same_network.kept ≢ some ""
unfolding lookup same_network
no_mode e = none-ne-some e

restore_agrees_example :
    restored plain_config
      (resource_network_state (λ _. "1") plain_config.short_engine_id inspection)
    ≡ returned (as_inspected inspection created)
restore_agrees_example =
    restore_agrees (λ _. "1") plain_config request inspection created same_network no_name no_mode
      accepted

-- An inspection without options.
abbrev bare : NetworkInspect
bare = record inspection { options = none }

error_never_reported_example :
    (ns : NetworkState) × (get_network_state_from_resource (λ _. "0") bare "abcd"
      ≡ returned (ns, none))
error_never_reported_example = error_never_reported (λ _. "0") bare "abcd"
