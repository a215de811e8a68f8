-- ===== src/Config/Network.antt =====
-- The state of a network, from a create request (the first half of ReOrCreateNetwork, ovs/driver.go)
-- and from docker's inspection (getNetworkStateFromResource, ovs/ovs_config.go).
pub mod Agreement
pub mod Errors
use dovesnap.Prelude.{
  ℕ, String, Bool, true, false, not, ◌&&◌, Option, none, some, List, [], ◌∷◌, ◌≡◌, refl, str_eq,
  if◌then◌else◌,
}
use dovesnap.Prelude.Text.{concat, true_text}
use dovesnap.Outcome.{Outcome, returned, panicked, exited, blocked, ◌>>=◌, ◌>>◌}
use dovesnap.System.{NetworkInspect}
use dovesnap.State.{NetworkState, DriverConfig, make_dynamic_network_state, zero_network_state}
use dovesnap.Config.{
  CreateNetworkRequest, mode_flat, bridge_prefix, default_mtu, default_vlan,
  must_get_uint_from_hex_str, truncate_id, must_get_internal_option, get_generic_option,
  must_get_bridge_vlan, must_get_bridge_mtu, must_get_pre_allocate_ports, must_get_bridge_name,
  must_get_bridge_mode, must_get_gateway_ip, get_str_option_from_resource,
  get_uint_option_from_resource, get_gateway_from_resource,
}

unfoldable pub must_get_bridge_dpid : CreateNetworkRequest → String
must_get_bridge_dpid r = get_generic_option r "ovs.bridge.dpid"

unfoldable pub must_get_use_dhcp : CreateNetworkRequest → Bool
must_get_use_dhcp r = true_text (get_generic_option r "ovs.bridge.dhcp")

-- The controller of the request, or the driver's default.
unfoldable pub controller_or_default : DriverConfig → CreateNetworkRequest → String
controller_or_default d r =
    let controller = get_generic_option r "ovs.bridge.controller" in
    if str_eq controller "" then d.stack_default_controllers else controller

-- `if useDHCP { ... }`: DHCP wants a flat, internal network without IP configuration.
unfoldable pub check_dhcp : CreateNetworkRequest → String → String → Outcome (Unit {0})
check_dhcp r mode gateway =
    if must_get_use_dhcp r
    then (if not (str_eq mode mode_flat)
        then panicked "network must be flat when DHCP in use"
        else if not (str_eq gateway "")
        then panicked "network must not have IP config when DHCP in use"
        else (do
          internal ← must_get_internal_option r
          if internal then returned tt else panicked "network must be internal when DHCP in use"))
    else returned tt

-- The state's literal.
unfoldable pub created_state :
    DriverConfig → CreateNetworkRequest → String → String → String × String → ℕ → NetworkState
created_state d r bridge_name mode gateway dpid_uint = record {
  network_name = "";
  bridge_name = bridge_name;
  bridge_dpid = must_get_bridge_dpid r;
  bridge_dpid_uint = dpid_uint;
  bridge_vlan = must_get_bridge_vlan r;
  mtu = must_get_bridge_mtu r;
  pre_allocate_ports = must_get_pre_allocate_ports r;
  mode = mode;
  add_ports = get_generic_option r "ovs.bridge.add_ports";
  add_copro_ports = get_generic_option r "ovs.bridge.add_copro_ports";
  gateway = gateway.0;
  gateway_mask = gateway.1;
  flat_bind_interface = get_generic_option r "ovs.bridge.bind_interface";
  use_dhcp = must_get_use_dhcp r;
  userspace = true_text (get_generic_option r "ovs.bridge.userspace");
  nat_acl = get_generic_option r "ovs.bridge.nat_acl";
  vlan_out_acl = get_generic_option r "ovs.bridge.vlan_out_acl";
  default_acl = get_generic_option r "ovs.bridge.default_acl";
  ovs_local_mac = get_generic_option r "ovs.bridge.ovs_local_mac";
  controller = controller_or_default d r;
  dynamic = make_dynamic_network_state d.short_engine_id;
}

unfoldable pub new_network_state :
    (String → String) → DriverConfig → CreateNetworkRequest → Outcome NetworkState
new_network_state hex_to_decimal d r = do
  bridge_name ← must_get_bridge_name r
  mode ← must_get_bridge_mode r
  gateway ← must_get_gateway_ip r
  check_dhcp r mode gateway.0
  dpid_uint ← must_get_uint_from_hex_str hex_to_decimal (must_get_bridge_dpid r)
  returned (created_state d r bridge_name mode gateway dpid_uint)

unfoldable pub must_get_bridge_name_from_resource : NetworkInspect → Outcome String
must_get_bridge_name_from_resource r = do
  short_id ← truncate_id r.id
  returned (concat (bridge_prefix ∷ short_id ∷ []))

-- The state's literal.
unfoldable pub inspected_state :
    NetworkInspect → String → String → String × String → ℕ → NetworkState
inspected_state r short_engine_id bridge_name gateway dpid_uint = record {
  network_name = r.name;
  bridge_name = bridge_name;
  bridge_dpid = get_str_option_from_resource r "ovs.bridge.dpid" "";
  bridge_dpid_uint = dpid_uint;
  bridge_vlan = get_uint_option_from_resource r "ovs.bridge.vlan" default_vlan;
  mtu = get_uint_option_from_resource r "ovs.bridge.mtu" default_mtu;
  pre_allocate_ports = get_uint_option_from_resource r "ovs.bridge.preallocate_ports" 0;
  mode = get_str_option_from_resource r "ovs.bridge.mode" mode_flat;
  add_ports = get_str_option_from_resource r "ovs.bridge.add_ports" "";
  add_copro_ports = get_str_option_from_resource r "ovs.bridge.add_copro_ports" "";
  gateway = gateway.0;
  gateway_mask = gateway.1;
  flat_bind_interface = get_str_option_from_resource r "ovs.bridge.bind_interface" "";
  use_dhcp = true_text (get_str_option_from_resource r "ovs.bridge.dhcp" "");
  userspace = true_text (get_str_option_from_resource r "ovs.bridge.userspace" "");
  nat_acl = get_str_option_from_resource r "ovs.bridge.nat_acl" "";
  vlan_out_acl = get_str_option_from_resource r "ovs.bridge.vlan_out_acl" "";
  default_acl = get_str_option_from_resource r "ovs.bridge.default_acl" "";
  ovs_local_mac = get_str_option_from_resource r "ovs.bridge.ovs_local_mac" "";
  controller = get_str_option_from_resource r "ovs.bridge.controller" "";
  dynamic = make_dynamic_network_state short_engine_id;
}

-- The body of `getNetworkStateFromResource`, which may panic.
unfoldable pub resource_network_state :
    (String → String) → String → NetworkInspect → Outcome NetworkState
resource_network_state hex_to_decimal short_engine_id r = do
  dpid_uint ←
      must_get_uint_from_hex_str hex_to_decimal
        (get_str_option_from_resource r "ovs.bridge.dpid" "")
  let gateway = get_gateway_from_resource r
  bridge_name ← must_get_bridge_name_from_resource r
  returned (inspected_state r short_engine_id bridge_name gateway dpid_uint)

-- The deferred recover() writes to a local variable, not to a result: after a panic Go returns the
-- zero value of both results, so the error is nil.
abbrev pub recovered_state : Outcome NetworkState → Outcome (NetworkState × Option String)
recovered_state (returned ns) = returned (ns, none)
recovered_state (panicked m) = returned (zero_network_state, none)
recovered_state (exited m) = exited m
recovered_state blocked = blocked

unfoldable pub get_network_state_from_resource :
    (String → String) → NetworkInspect → String → Outcome (NetworkState × Option String)
get_network_state_from_resource hex_to_decimal r short_engine_id =
    recovered_state (resource_network_state hex_to_decimal short_engine_id r)

-- restoreNetworks of ovs/driver.go: `if ns.Controller == "" { ns.Controller = ... }`
unfoldable pub with_default_controller : DriverConfig → NetworkState → NetworkState
with_default_controller d ns =
    if str_eq ns.controller "" then record ns { controller = d.stack_default_controllers } else ns
