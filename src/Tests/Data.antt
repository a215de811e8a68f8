-- ===== src/Tests/Data.antt =====
-- A world that answers every call alike, and a resource manager that knows one network, for the
-- concrete runs.
use dovesnap.Prelude.{false, String, Bool, none, some, [], ◌∷◌}
use dovesnap.Outcome.{ok, err}
use dovesnap.System.{Env, ContainerInspect}
use dovesnap.State.{
  NetworkState, DriverConfig, OfPortContainer, zero_network_state, zero_stack_mirror_config,
  make_dynamic_network_state,
}
use dovesnap.Config.{CreateNetworkRequest, text, object, generic_option}
use dovesnap.Manager.{Manager, DovesnapOp}

abbrev pub all_five : Env
all_five = record {
  answer = λ h c. ok "5";
  inspect_network = λ h id. err "not found";
  inspect_container = λ h id. err "not found";
  list_networks = λ h. err "no daemon";
  hex_to_decimal = λ s. "1";
  base36_to_hex = λ s. s;
  split_host_port = λ s. some s;
  parse_ip = λ s. some s;
  net_contains = λ net ip. false;
}

abbrev pub plain_config : DriverConfig
plain_config = record {
  stack_priority1 = "";
  stacking_interfaces = "" ∷ [];
  stack_mirror_interface = "" ∷ [];
  stack_default_controllers = "";
  mirror_bridge_in = "";
  mirror_bridge_out = "";
  short_engine_id = "abcd";
  mirror_bridge_name = "ovsmir";
  loopback_bridge_name = "ovslb";
  stack_dp_name = "dovesnap";
}

abbrev pub network : NetworkState
network = record zero_network_state {
  network_name = "testnet";
  bridge_name = "ovsbr";
  mode = "flat";
  dynamic = make_dynamic_network_state "abcd";
}

abbrev pub container : ContainerInspect
container = record {
  id = "0123456789abcdef";
  name = "web";
  pid = 7;
  labels = [];
  networks =
      (
        "testnet",
        record { mac_address = "02:42:ac:11:00:02"; ip_address = "10.0.0.2"; gateway = "10.0.0.1" },
      )
      ∷ [];
}

abbrev pub endpoint : OfPortContainer
endpoint = record {
  of_port = 5;
  container_inspect = some container;
  udhcpc_cmd = none;
  port_maps = some [];
}

abbrev pub manager : Manager
manager = record {
  config = plain_config;
  networks = ("n1", network) ∷ [];
  stack_mirror_configs = ("n1", zero_stack_mirror_config) ∷ [];
  of_ports = ("fedcba9876543210", endpoint) ∷ [];
  all_port_desc = [];
  last_dhcp_mtime = "";
  pending = 1;
  queue = [];
  replies = [];
  notices = [];
  calls = [];
}

abbrev pub message : String → Bool → DovesnapOp
message operation reply = record {
  operation = operation;
  new_network_state = network;
  new_stack_mirror_config = zero_stack_mirror_config;
  add_ports = "";
  add_copro_ports = "";
  mode = "flat";
  network_id = "n1";
  endpoint_id = "fedcba9876543210";
  options = none;
  reply = reply;
}

abbrev pub request : CreateNetworkRequest
request = record {
  network_id = "0123456789abcdef";
  options = some ((generic_option, object (("ovs.bridge.dpid", text "0x1") ∷ [])) ∷ []);
  ipv4_data = some "10.0.0.1/24" ∷ [];
  ipv6_data = [];
}
