-- ===== src/Config.antt =====
-- ovs/ovs_config.go and the conversions of ovs/utils.go: the options of a docker network, as a
-- create request carries them and as docker's inspection gives them back.
pub mod Network
pub mod Acls
pub mod Gateway
use Prim.Native.String.{len, slice}
use dovesnap.Prelude.{
  ℕ, zero, suc, ◌+◌, ◌%◌, ◌^◌, String, Bool, true, false, not, ◌&&◌, ◌||◌, Option, none, some, List,
  [], ◌∷◌, ◌≡◌, refl, str_eq, ltb, ◌==◌, if◌then◌else◌, length,
}
use dovesnap.Prelude.Map.{Map, string_key, lookup}
use dovesnap.Prelude.Text.{concat, split, field, parse_uint, to_lower, to_upper, true_text}
use dovesnap.Outcome.{Outcome, returned, panicked, ◌>>=◌, Result, ok, err}
use dovesnap.System.{NetworkInspect}
use dovesnap.State.{StackMirrorConfig, DriverConfig, using_stack_mirroring}
use dovesnap.Ports.{parse_uint32}

-- The dynamic types that the code asks an option for.
pub data Leaf : Type 0 where
  text : String → Leaf
  flag : Bool → Leaf
  other : Leaf

pub data Value : Type 0 where
  leaf : Leaf → Value
  object : Map String Leaf → Value

pub record CreateNetworkRequest : Type 0 where
  pub network_id : String
  pub options : Option (Map String Value)
  pub ipv4_data : List (Option String)  -- a nil pointer, or the gateway
  pub ipv6_data : List (Option String)

abbrev pub mode_flat : String
mode_flat = "flat"

abbrev pub mode_nat : String
mode_nat = "nat"

abbrev pub mode_routed : String
mode_routed = "routed"

abbrev pub generic_option : String
generic_option = "com.docker.network.generic"

abbrev pub internal_option : String
internal_option = "com.docker.network.internal"

abbrev pub default_lb_port : ℕ
default_lb_port = 99

abbrev pub default_mtu : ℕ
default_mtu = 1500

abbrev pub default_tunnel_vlan_offset : ℕ
default_tunnel_vlan_offset = 256

abbrev pub default_vlan : ℕ
default_vlan = 100

abbrev pub bridge_prefix : String
bridge_prefix = "odsbr"

unfoldable pub default_uint : String → ℕ → ℕ
default_uint str_value default_value = elim (parse_uint 64 str_value) [
  | none ↦ default_value
  | some n ↦ n
]

unfoldable pub must_get_uint_from_hex_str : (String → String) → String → Outcome ℕ
must_get_uint_from_hex_str hex_to_decimal dpid =
    let str_val = hex_to_decimal (to_lower (slice dpid 2 (len dpid))) in
    let uint_val = default_uint str_val 0 in
    if ltb (len dpid) 2
    then panicked "slice bounds out of range"
    else if uint_val == 0
    then panicked (concat ("unable convert " ∷ str_val ∷ " to an uint" ∷ []))
    else returned uint_val

-- `for digits < 6 { converted = "0" + converted }`
unfoldable pub pad : ℕ → String → String
pad zero converted = converted
pad (suc fuel) converted =
    let rest = pad fuel (concat ("0" ∷ converted ∷ [])) in
    if ltb (len converted) 6 then rest else converted

unfoldable pub base36_to_16 : (String → String) → String → String
base36_to_16 base36_to_hex value = to_upper (pad 6 (base36_to_hex (to_lower value)))

-- id[:5]
unfoldable pub truncate_id : String → Outcome String
truncate_id id =
    if ltb (len id) 5 then panicked "slice bounds out of range" else returned (slice id 0 5)

unfoldable pub as_bool : Option Value → Outcome Bool
as_bool (some (leaf (flag b))) = returned b
as_bool _ = panicked "interface conversion"

unfoldable pub must_get_internal_option : CreateNetworkRequest → Outcome Bool
must_get_internal_option r = elim r.options [
  | none ↦ returned false
  | some options ↦ as_bool (lookup internal_option options)
]

unfoldable pub as_text : Option Leaf → String
as_text (some (text s)) = s
as_text _ = ""

unfoldable pub text_option : Option Value → String → String
text_option (some (object options)) name = as_text (lookup name options)
text_option _ name = ""

unfoldable pub get_generic_option : CreateNetworkRequest → String → String
get_generic_option r name = elim r.options [
  | none ↦ ""
  | some options ↦ text_option (lookup generic_option options) name
]

unfoldable pub get_generic_uint_option : CreateNetworkRequest → String → ℕ → ℕ
get_generic_uint_option r name default = default_uint (get_generic_option r name) default

unfoldable pub must_get_bridge_vlan : CreateNetworkRequest → ℕ
must_get_bridge_vlan r = get_generic_uint_option r "ovs.bridge.vlan" default_vlan

unfoldable pub must_get_tunnel_vid : CreateNetworkRequest → ℕ
must_get_tunnel_vid r =
    get_generic_uint_option r "ovs.bridge.mirror_tunnel_vid"
      ((must_get_bridge_vlan r + default_tunnel_vlan_offset) % 2 ^ 64)

unfoldable pub must_get_bridge_mtu : CreateNetworkRequest → ℕ
must_get_bridge_mtu r = get_generic_uint_option r "ovs.bridge.mtu" default_mtu

unfoldable pub must_get_pre_allocate_ports : CreateNetworkRequest → ℕ
must_get_pre_allocate_ports r = get_generic_uint_option r "ovs.bridge.preallocate_ports" 0

unfoldable pub must_get_lb_port : CreateNetworkRequest → ℕ
must_get_lb_port r = get_generic_uint_option r "ovs.bridge.lbport" default_lb_port

unfoldable pub must_get_bridge_name : CreateNetworkRequest → Outcome String
must_get_bridge_name r = do
  short_id ← truncate_id r.network_id
  let name = get_generic_option r "ovs.bridge.name"
  returned (if str_eq name "" then concat (bridge_prefix ∷ short_id ∷ []) else name)

unfoldable pub is_valid_mode : String → Bool
is_valid_mode mode = str_eq mode mode_nat || str_eq mode mode_flat || str_eq mode mode_routed

unfoldable pub must_get_bridge_mode : CreateNetworkRequest → Outcome String
must_get_bridge_mode r =
    let mode = get_generic_option r "ovs.bridge.mode" in
    if str_eq mode ""
    then returned mode_flat
    else if is_valid_mode mode
    then returned mode
    else panicked (concat (mode ∷ " is not a valid mode" ∷ []))

unfoldable pub must_get_gateway_ip_from_data : List (Option String) → String
must_get_gateway_ip_from_data (some gateway ∷ rest) = gateway
must_get_gateway_ip_from_data _ = ""

-- The two parts of a text with one slash, both of them there.
unfoldable pub address_and_mask : List String → Option (String × String)
address_and_mask (ip ∷ mask ∷ []) =
    if not (str_eq ip "") && not (str_eq mask "") then some (ip, mask) else none
address_and_mask _ = none

unfoldable pub split_gateway : String → Outcome (String × String)
split_gateway gateway_ip =
    if str_eq gateway_ip ""
    then returned ("", "")
    else elim (address_and_mask (split "/" gateway_ip)) [
      | some parts ↦ returned parts
      | none ↦ panicked (concat ("cannot parse gateway IP: " ∷ gateway_ip ∷ []))
    ]

unfoldable pub must_get_gateway_ip : CreateNetworkRequest → Outcome (String × String)
must_get_gateway_ip r =
    let ipv6_gw = must_get_gateway_ip_from_data r.ipv6_data in
    let ipv4_gw = must_get_gateway_ip_from_data r.ipv4_data in
    split_gateway (if str_eq ipv4_gw "" then ipv6_gw else ipv4_gw)

unfoldable pub must_get_stack_bridge_link : DriverConfig → String × ℕ
must_get_stack_bridge_link d =
    (field 0 d.stack_mirror_interface, default_uint (field 1 d.stack_mirror_interface) 0 % 2 ^ 32)

-- What both `getStackMirrorConfig` and `getStackMirrorConfigFromResource` build.
unfoldable pub mirror_config : DriverConfig → ℕ → ℕ → StackMirrorConfig
mirror_config d lb_port tunnel_vid =
    let link = must_get_stack_bridge_link d in
    if using_stack_mirroring d
    then record {
      lb_port = lb_port % 2 ^ 32;
      tunnel_vid = tunnel_vid % 2 ^ 32;
      remote_dp_name = link.0;
      remote_mirror_port = link.1;
    }
    else record {
      lb_port = lb_port % 2 ^ 32;
      tunnel_vid = 0;
      remote_dp_name = "";
      remote_mirror_port = 0;
    }

unfoldable pub get_stack_mirror_config : DriverConfig → CreateNetworkRequest → StackMirrorConfig
get_stack_mirror_config d r = mirror_config d (must_get_lb_port r) (must_get_tunnel_vid r)

unfoldable pub stacking_interface : List String → Option ℕ → Outcome (String × ℕ × String)
stacking_interface parts none = panicked "unable to convert remote port to an unsigned integer"
stacking_interface parts (some remote_port) =
    if ltb (length parts) 3
    then panicked "index out of range"
    else returned (field 0 parts, remote_port, field 2 parts)

-- `dpname:port:interface`
unfoldable pub must_get_stacking_interface : String → Outcome (String × ℕ × String)
must_get_stacking_interface interface =
    let parts = split ":" interface in
    if ltb (length parts) 2
    then panicked "index out of range"
    else stacking_interface parts (parse_uint32 (field 1 parts))

unfoldable pub get_str_option_from_resource : NetworkInspect → String → String → String
get_str_option_from_resource r name default = elim r.options [
  | none ↦ default
  | some options ↦ elim (lookup name options) [ none ↦ default | some s ↦ s ]
]

unfoldable pub get_uint_option_from_resource : NetworkInspect → String → ℕ → ℕ
get_uint_option_from_resource r name default =
    default_uint (get_str_option_from_resource r name "") default

unfoldable pub get_gateway_from_resource : NetworkInspect → String × String
get_gateway_from_resource r = elim r.ipam_config [
  | [] ↦ ("", "")
  | (subnet, gateway) ∷ _ ↦ elim (address_and_mask (split "/" subnet)) [
    | some (_, mask) ↦ (gateway, mask)
    | none ↦ ("", "")
  ]
]

unfoldable pub get_stack_mirror_config_from_resource :
    DriverConfig → NetworkInspect → StackMirrorConfig
get_stack_mirror_config_from_resource d r =
    let vlan = get_uint_option_from_resource r "ovs.bridge.vlan" default_vlan in
    mirror_config d (get_uint_option_from_resource r "ovs.bridge.lbport" default_lb_port) (
      get_uint_option_from_resource r "ovs.bridge.mirror_tunnel_vid"
        ((vlan + default_tunnel_vlan_offset) % 2 ^ 64))

-- One `network:value` or plain `value` of the loop of `getStrForNetwork`.
unfoldable pub str_for_network : String → List String → String → String
str_for_network network_name (value ∷ []) found = value
str_for_network network_name (name ∷ value ∷ []) found =
    if str_eq network_name name then value else found
str_for_network network_name _ found = found

unfoldable pub strs_for_network : String → List String → String → String
strs_for_network network_name [] found = found
strs_for_network network_name (pair ∷ rest) found =
    strs_for_network network_name rest (str_for_network network_name (split ":" pair) found)

unfoldable pub get_str_for_network : String → String → String
get_str_for_network network_str network_name =
    strs_for_network network_name (split "/" network_str) ""
