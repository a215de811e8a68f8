-- ===== src/State.antt =====
-- The types of ovs/driver.go and ovs/ovs_config.go. A `chan` field is left out of the records: the
-- resource manager's replies are a field of its state.
use dovesnap.Prelude.{
  ℕ, String, Bool, true, false, not, ◌&&◌, List, [], Option, str_eq, ltb, length,
}
use dovesnap.Prelude.Map.{Map}
use dovesnap.Prelude.Text.{field}
use dovesnap.System.{ContainerInspect}

pub record ContainerState : Type 0 where
  pub name : String
  pub id : String
  pub of_port : ℕ
  pub mac_address : String
  pub host_ip : String
  pub labels : Map String String
  pub if_name : String

pub record ExternalPortState : Type 0 where
  pub name : String
  pub of_port : ℕ
  pub mac_address : String

pub record OtherBridgePortState : Type 0 where
  pub name : String
  pub peer_name : String
  pub of_port : ℕ
  pub peer_of_port : ℕ
  pub peer_bridge_name : String

-- The three maps are shared by every copy of a `NetworkState`. They are nil where `made` is false: a
-- nil map reads as empty, and a write to it panics.
pub record DynamicNetworkState : Type 0 where
  pub made : Bool
  pub short_engine_id : String
  pub containers : Map String ContainerState
  pub external_ports : Map String ExternalPortState
  pub other_bridge_ports : Map String OtherBridgePortState

pub record NetworkState : Type 0 where
  pub network_name : String
  pub bridge_name : String
  pub bridge_dpid : String
  pub bridge_dpid_uint : ℕ
  pub bridge_vlan : ℕ
  pub mtu : ℕ
  pub pre_allocate_ports : ℕ
  pub mode : String
  pub add_ports : String
  pub add_copro_ports : String
  pub gateway : String
  pub gateway_mask : String
  pub flat_bind_interface : String
  pub use_dhcp : Bool
  pub userspace : Bool
  pub nat_acl : String
  pub vlan_out_acl : String
  pub default_acl : String
  pub ovs_local_mac : String
  pub controller : String
  pub dynamic : DynamicNetworkState

pub record StackMirrorConfig : Type 0 where
  pub lb_port : ℕ
  pub tunnel_vid : ℕ
  pub remote_dp_name : String
  pub remote_mirror_port : ℕ

-- A value of type interface{} in a port map: a float64, as its sign, mantissa and (negated) exponent of 2,
-- or a value of another type.
pub data FieldValue : Type 0 where
  float64 : (negative : Bool) (mantissa exponent : ℕ) → FieldValue
  other_type : FieldValue

-- A port map of docker's options for an endpoint, of type interface{}: a map, or a value of another type.
pub data PortMap : Type 0 where
  fields : Map String FieldValue → PortMap
  no_map : PortMap

pub record OfPortContainer : Type 0 where
  pub of_port : ℕ
  pub container_inspect : Option ContainerInspect
  pub udhcpc_cmd : Option (List String)
  pub port_maps : Option (List PortMap)

-- The fields of `Driver` that no operation changes after `NewDriver`.
pub record DriverConfig : Type 0 where
  pub stack_priority1 : String
  pub stacking_interfaces : List String
  pub stack_mirror_interface : List String
  pub stack_default_controllers : String
  pub mirror_bridge_in : String
  pub mirror_bridge_out : String
  pub short_engine_id : String
  pub mirror_bridge_name : String
  pub loopback_bridge_name : String
  pub stack_dp_name : String

abbrev pub make_dynamic_network_state : String → DynamicNetworkState
make_dynamic_network_state short_engine_id = record {
  made = true;
  short_engine_id = short_engine_id;
  containers = [];
  external_ports = [];
  other_bridge_ports = [];
}

-- Go's zero value of a `NetworkState`.
abbrev pub zero_network_state : NetworkState
zero_network_state = record {
  network_name = "";
  bridge_name = "";
  bridge_dpid = "";
  bridge_dpid_uint = 0;
  bridge_vlan = 0;
  mtu = 0;
  pre_allocate_ports = 0;
  mode = "";
  add_ports = "";
  add_copro_ports = "";
  gateway = "";
  gateway_mask = "";
  flat_bind_interface = "";
  use_dhcp = false;
  userspace = false;
  nat_acl = "";
  vlan_out_acl = "";
  default_acl = "";
  ovs_local_mac = "";
  controller = "";
  dynamic = record {
    made = false;
    short_engine_id = "";
    containers = [];
    external_ports = [];
    other_bridge_ports = [];
  };
}

abbrev pub zero_stack_mirror_config : StackMirrorConfig
zero_stack_mirror_config = record {
  lb_port = 0;
  tunnel_vid = 0;
  remote_dp_name = "";
  remote_mirror_port = 0;
}

unfoldable pub using_mirror_bridge : DriverConfig → Bool
using_mirror_bridge d = not (str_eq d.mirror_bridge_out "")

-- strings.Split gives at least one interface, so there is a first one.
unfoldable pub using_stacking : DriverConfig → Bool
unfolding using_mirror_bridge field
using_stacking d = not (using_mirror_bridge d) && not (str_eq (field 0 d.stacking_interfaces) "")

unfoldable pub using_stack_mirroring : DriverConfig → Bool
unfolding using_stacking
using_stack_mirroring d = using_stacking d && ltb 1 (length d.stack_mirror_interface)
