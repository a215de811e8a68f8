-- ===== src/Plugin.antt =====
-- The requests of docker's plugin interface and of the web server, as ovs/driver.go serves them: each
-- runs in a goroutine of its own, does its part of the work and sends the rest to the resource
-- manager. A request that waits for a reply is modelled up to that wait.
pub mod Keeps
pub mod Answers
use dovesnap.Prelude.{
  ℕ, String, Option, none, some, List, [], ◌∷◌, true, false, ◌≡◌, refl, str_eq, if◌then◌else◌,
}
use dovesnap.Prelude.Map.{Map}
use dovesnap.Prelude.Text.{concat}
use dovesnap.Outcome.{Outcome, returned, panicked, Result, ok, err}
use dovesnap.Outcome
use dovesnap.System
use dovesnap.System.{Io, lift, ask}
use dovesnap.State.{NetworkState, StackMirrorConfig, PortMap, DriverConfig}
use dovesnap.Config.{CreateNetworkRequest, truncate_id, get_stack_mirror_config}
use dovesnap.Config.Network.{new_network_state}
use dovesnap.AddPorts.{without_vlans, no_ports, parse_add_ports}
use dovesnap.Links.{veth_pair, add_veth_pair, get_mac_addr, must_set_interface_mtu}
use dovesnap.Mac.{must_set_interface_mac}
use dovesnap.Manager.{
  M, Manager, DovesnapOp, pure, panic, io, skip, get_config, get_network, ◌>>=◌, ◌>>◌,
}
use dovesnap.Channel.{zero_message, send_message, wait_group_add, wait_group_wait, recovered}
use dovesnap.Handlers.Bridges.{init_bridge_and_ports}

abbrev pub container_eth_name : String
container_eth_name = "eth"

-- "Validate add_ports/add_copro_ports if present": the pointer for the VLANs is nil.
unfoldable pub validate_add_ports : NetworkState → Outcome (Unit {0})
validate_add_ports ns =
    Outcome.◌>>=◌ (parse_add_ports without_vlans ns.add_ports no_ports) (λ found.
      Outcome.◌>>=◌ (parse_add_ports without_vlans ns.add_copro_ports found) (λ _. returned tt))

-- `createMsg`, of a request.
unfoldable pub create_message :
    CreateNetworkRequest → String → NetworkState → StackMirrorConfig → DovesnapOp
create_message r operation ns sc = record zero_message {
  new_network_state = ns;
  new_stack_mirror_config = sc;
  add_ports = ns.add_ports;
  add_copro_ports = ns.add_copro_ports;
  mode = ns.mode;
  network_id = r.network_id;
  endpoint_id = ns.bridge_name;
  operation = operation;
}

-- `if operation == "create" { d.InitBridge(ns, stackMirrorConfig) }`
unfoldable pub init_if_new :
    String → DriverConfig → NetworkState → StackMirrorConfig → Io (Unit {0})
init_if_new operation d ns sc =
    if str_eq operation "create" then init_bridge_and_ports d ns sc else System.skip

-- ReOrCreateNetwork, up to the message that it sends.
unfoldable pub prepare_network : CreateNetworkRequest → String → M DovesnapOp
prepare_network r operation = do
  d ← get_config
  hex_to_decimal ← io (ask (λ env. env.hex_to_decimal))
  ns ← io (lift (new_network_state hex_to_decimal d r))
  io (lift (validate_add_ports ns))
  let sc = get_stack_mirror_config d r
  io (init_if_new operation d ns sc)
  io (must_set_interface_mtu ns.bridge_name ns.mtu)
  pure (create_message r operation ns sc)

unfoldable pub re_or_create_network : CreateNetworkRequest → String → M (Result (Unit {0}))
re_or_create_network r operation =
    recovered (do op ← prepare_network r operation; wait_group_add; send_message op)

unfoldable pub create_network : CreateNetworkRequest → M (Result (Unit {0}))
create_network r = re_or_create_network r "create"

unfoldable pub delete_message : String → DovesnapOp
delete_message network_id = record zero_message {
  network_id = network_id;
  operation = "delete";
  reply = true;
}

unfoldable pub delete_network : String → M (Unit {0})
delete_network network_id = wait_group_add >> send_message (delete_message network_id)

-- The MAC address of the answer: docker's own request is answered by "".
unfoldable pub endpoint_mac : String → Option String → Io String
endpoint_mac veth_name none = System.panic "invalid memory address or nil pointer dereference"
endpoint_mac veth_name (some mac_address) =
    if str_eq mac_address ""
    then get_mac_addr veth_name
    else System.◌>>◌ (must_set_interface_mac veth_name mac_address) (System.pure "")

unfoldable pub endpoint_message : String → String → String → DovesnapOp
endpoint_message operation network_id endpoint_id = record zero_message {
  network_id = network_id;
  endpoint_id = endpoint_id;
  operation = operation;
  reply = true;
}

-- `mac_address` is that of the request's interface, where there is one.
unfoldable pub create_endpoint : String → String → Option String → M String
create_endpoint network_id endpoint_id mac_address = do
  suffix ← io (lift (truncate_id endpoint_id))
  io (add_veth_pair (veth_pair suffix))
  mac ← io (endpoint_mac (veth_pair suffix).1 mac_address)
  send_message (endpoint_message "reserveport" network_id endpoint_id)
  pure mac

pub record JoinResponse : Type 0 where
  pub src_name : String
  pub dst_prefix : String
  pub gateway : String

unfoldable pub join_message : String → String → Option (List PortMap) → DovesnapOp
join_message network_id endpoint_id options = record zero_message {
  network_id = network_id;
  endpoint_id = endpoint_id;
  options = options;
  operation = "join";
}

unfoldable pub join : String → String → Option (List PortMap) → M JoinResponse
join network_id endpoint_id options = do
  wait_group_wait
  ns ← get_network network_id
  suffix ← io (lift (truncate_id endpoint_id))
  send_message (join_message network_id endpoint_id options)
  pure (record {
    src_name = (veth_pair suffix).1;
    dst_prefix = container_eth_name;
    gateway = ns.gateway;
  })

unfoldable pub leave : String → String → M (Unit {0})
leave network_id endpoint_id = send_message (endpoint_message "leave" network_id endpoint_id)

-- getWebResponse, whose reply is written to the client.
unfoldable pub get_web_response : String → M (Unit {0})
get_web_response operation =
    send_message (record zero_message { operation = operation; reply = true })

-- Quit, up to the end of the resource manager.
unfoldable pub quit : M (Unit {0})
quit = send_message (record zero_message { operation = "quit" })

-- The requests that change nothing, and their answers.
abbrev pub capabilities_scope : String
capabilities_scope = "local"

unfoldable pub get_capabilities : M String
get_capabilities = pure capabilities_scope

unfoldable pub program_external_connectivity : (network_id endpoint_id : String) → M (Unit {0})
program_external_connectivity network_id endpoint_id = skip

unfoldable pub revoke_external_connectivity : (network_id endpoint_id : String) → M (Unit {0})
revoke_external_connectivity network_id endpoint_id = skip

unfoldable pub free_network : (network_id : String) → M (Unit {0})
free_network network_id = skip

unfoldable pub discover_new : (discovery_type : ℕ) → M (Unit {0})
discover_new discovery_type = skip

unfoldable pub discover_delete : (discovery_type : ℕ) → M (Unit {0})
discover_delete discovery_type = skip

unfoldable pub delete_endpoint : (network_id endpoint_id : String) → M (Unit {0})
delete_endpoint network_id endpoint_id = skip

unfoldable pub allocate_network : (network_id : String) → M (Map String String)
allocate_network network_id = pure []

unfoldable pub endpoint_info : (network_id endpoint_id : String) → M (Map String String)
endpoint_info network_id endpoint_id = pure []

-- The requests that docker and the web server make.
pub data PluginRequest : Type 0 where
  create_network_request : CreateNetworkRequest → PluginRequest
  delete_network_request : (network_id : String) → PluginRequest
  create_endpoint_request :
      (network_id endpoint_id : String) (mac_address : Option String) → PluginRequest
  join_request : (network_id endpoint_id : String) (options : Option (List PortMap)) → PluginRequest
  leave_request : (network_id endpoint_id : String) → PluginRequest
  networks_request : PluginRequest
  capabilities_request : PluginRequest
  program_request : (network_id endpoint_id : String) → PluginRequest
  revoke_request : (network_id endpoint_id : String) → PluginRequest
  free_request : (network_id : String) → PluginRequest
  discover_new_request : (discovery_type : ℕ) → PluginRequest
  discover_delete_request : (discovery_type : ℕ) → PluginRequest
  delete_endpoint_request : (network_id endpoint_id : String) → PluginRequest
  allocate_request : (network_id : String) → PluginRequest
  info_request : (network_id endpoint_id : String) → PluginRequest

unfoldable pub serve : PluginRequest → M (Unit {0})
serve (create_network_request r) = create_network r >> skip
serve (delete_network_request id) = delete_network id
serve (create_endpoint_request id endpoint mac) = create_endpoint id endpoint mac >> skip
serve (join_request id endpoint options) = join id endpoint options >> skip
serve (leave_request id endpoint) = leave id endpoint
serve networks_request = get_web_response "networks"
serve capabilities_request = get_capabilities >> skip
serve (program_request id endpoint) = program_external_connectivity id endpoint
serve (revoke_request id endpoint) = revoke_external_connectivity id endpoint
serve (free_request id) = free_network id
serve (discover_new_request kind) = discover_new kind
serve (discover_delete_request kind) = discover_delete kind
serve (delete_endpoint_request id endpoint) = delete_endpoint id endpoint
serve (allocate_request id) = allocate_network id >> skip
serve (info_request id endpoint) = endpoint_info id endpoint >> skip
