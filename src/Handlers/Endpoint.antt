-- ===== src/Handlers/Endpoint.antt =====
-- The handlers of ovs/driver.go for endpoints: mustHandleReservePort, mustHandleJoinContainer and
-- mustHandleLeaveContainer.
use dovesnap.Prelude.{ℕ, String, Option, none, some, List, [], ◌∷◌, ◌||◌, str_eq, if◌then◌else◌}
use dovesnap.Prelude.Map.{string_key, lookup, insert, delete}
use dovesnap.Prelude.Text.{concat, decimal, true_text}
use dovesnap.System.{
  EndpointSettings, ContainerInspect, exec, start, kill_and_wait, call, must_call, lift, or_panic,
}
use dovesnap.Commands.{must_add_gateway_port_map, must_delete_gateway_port_map}
use dovesnap.Handlers.PortMaps.{must_get_port_map}
use dovesnap.Mac.{must_prefix_mac}
use dovesnap.Ports.{must_add_internal_port, must_delete_port, must_get_of_port}
use dovesnap.Faucet.{
  must_set_faucet_config_file, must_add_port_mirror, must_delete_dp_interface, vlan_interface_yaml,
  merge_single_dp_minimal_yaml,
}
use dovesnap.Links.{ovs_port_prefix, veth_pair, del_veth_pair, create_ns_link, delete_ns_link}
use dovesnap.Docker.{get_container_from_endpoint}
use dovesnap.Config.{truncate_id, get_str_for_network}
use dovesnap.State.{
  NetworkState, OfPortContainer, PortMap, using_mirror_bridge, using_stack_mirroring,
}
use dovesnap.Manager.{
  M, Manager, DovesnapOp, empty_reply, pure, panic, io, gets, modify, skip, get_config, get_network,
  get_mirror_config, delete_dynamic, write_container, send_reply, notify, deferred, ◌>>=◌, ◌>>◌,
}

unfoldable pub add_port_maps : String → EndpointSettings → List PortMap → M (Unit {0})
add_port_maps bridge_name net [] = skip
add_port_maps bridge_name net (m ∷ rest) = do
  p ← io (lift (must_get_port_map m))
  io (must_add_gateway_port_map bridge_name p.1.1 net.gateway net.ip_address p.0 p.1.0)
  add_port_maps bridge_name net rest

unfoldable pub delete_port_maps : String → EndpointSettings → List PortMap → M (Unit {0})
delete_port_maps bridge_name net [] = skip
delete_port_maps bridge_name net (m ∷ rest) = do
  p ← io (lift (must_get_port_map m))
  io (must_delete_gateway_port_map bridge_name p.1.1 net.gateway net.ip_address p.0 p.1.0)
  delete_port_maps bridge_name net rest

-- `options[portMapOption].([]interface{})`
abbrev pub must_port_maps : Option (List PortMap) → M (List PortMap)
must_port_maps none = panic "interface conversion"
must_port_maps (some maps) = pure maps

-- `containerInspect.NetworkSettings.Networks[name]`, a pointer that is nil for an unknown name.
unfoldable pub must_net_settings : String → ContainerInspect → M EndpointSettings
must_net_settings name c = elim (lookup name c.networks) [
  | none ↦ panic "nil pointer dereference"
  | some net ↦ pure net
]

abbrev pub default_interface : String
default_interface = "eth0"

unfoldable pub set_port : String → OfPortContainer → M (Unit {0})
set_port endpoint_id c = modify (λ s. record s { of_ports = insert endpoint_id c s.of_ports })

unfoldable pub reserve_port_body : DovesnapOp → M (Unit {0})
reserve_port_body op = do
  ns ← get_network op.network_id
  short_id ← io (lift (truncate_id op.endpoint_id))
  added ← io (must_add_internal_port ns.bridge_name (veth_pair short_id).0 0)
  set_port op.endpoint_id
      (record { of_port = added.0; container_inspect = none; udhcpc_cmd = none; port_maps = none })

unfoldable pub must_handle_reserve_port : DovesnapOp → M (Unit {0})
must_handle_reserve_port op = deferred skip (reserve_port_body op)

-- The address that the prefix makes is given to the interface alone: the variable that the rest of
-- the handler reads keeps the old one.
unfoldable pub set_mac_prefix : ContainerInspect → String → M (Unit {0})
set_mac_prefix c mac_address = elim (lookup "dovesnap.faucet.mac_prefix" c.labels) [
  | none ↦ skip
  | some mac_prefix ↦
      let set = (do
        mac ← io (lift (must_prefix_mac mac_prefix mac_address))
        io (
            must_call (
              exec "ip" (
                "netns" ∷ "exec" ∷ c.id ∷ "ip" ∷ "link" ∷ "set" ∷ default_interface ∷ "address"
                ∷ mac ∷ [])))
        skip) in
      if str_eq mac_prefix "" then skip else set
]

unfoldable pub set_offload : NetworkState → ContainerInspect → M (Unit {0})
set_offload ns c =
    let set =
      io (
        must_call (
          exec "ip" (
            "netns" ∷ "exec" ∷ c.id ∷ "/sbin/ethtool" ∷ "-K" ∷ default_interface ∷ "tx" ∷ "off"
            ∷ [])))
      >> skip in
    if ns.userspace then set else skip

-- The label where it is set, else the network's default.
unfoldable pub port_acl_of : NetworkState → ContainerInspect → String
port_acl_of ns c =
    let default =
      if str_eq ns.default_acl "" then "" else get_str_for_network ns.default_acl ns.network_name in
    elim (lookup "dovesnap.faucet.portacl" c.labels) [
      | none ↦ default
      | some label ↦ if str_eq label "" then default else get_str_for_network label ns.network_name
    ]

unfoldable pub mirror_container : DovesnapOp → NetworkState → ContainerInspect → ℕ → M (Unit {0})
mirror_container op ns c of_port = elim (lookup "dovesnap.faucet.mirror" c.labels) [
  | none ↦ skip
  | some mirror ↦
      let add = (do
        d ← get_config
        sc ← get_mirror_config op.network_id
        let set = io (must_add_port_mirror ns.network_name of_port sc.lb_port) >> skip
        if using_stack_mirroring d || using_mirror_bridge d then set else skip) in
      if true_text (get_str_for_network mirror ns.network_name) then add else skip
]

unfoldable pub udhcpc_command : ContainerInspect → List String
udhcpc_command c =
    "ip" ∷ "netns" ∷ "exec" ∷ c.id ∷ "/sbin/udhcpc" ∷ "-f" ∷ "-R" ∷ "-i" ∷ default_interface ∷ "-s"
    ∷ "/udhcpclog.sh" ∷ []

unfoldable pub start_udhcpc : NetworkState → ContainerInspect → M (Option (List String))
start_udhcpc ns c =
    let begin = io (must_call (start (udhcpc_command c))) >> pure (some (udhcpc_command c)) in
    if ns.use_dhcp then begin else pure none

-- The description of a container's port.
unfoldable pub port_yaml : NetworkState → ContainerInspect → ℕ → String → String
port_yaml ns c of_port short_id = merge_single_dp_minimal_yaml ns.network_name (
    vlan_interface_yaml of_port (concat (c.name ∷ " " ∷ short_id ∷ [])) ns.bridge_vlan
      (port_acl_of ns c))

-- `(*OFPorts)[endpoint].OFPort`, 0 for an endpoint without a reserved port.
unfoldable pub reserved_port : String → Manager → ℕ
reserved_port endpoint_id s = elim (lookup endpoint_id s.of_ports) [ none ↦ 0 | some c ↦ c.of_port ]

unfoldable pub join_container_body : DovesnapOp → M (Unit {0})
join_container_body op = do
  of_port ← gets (reserved_port op.endpoint_id)
  ns ← get_network op.network_id
  found ← io (get_container_from_endpoint op.network_id op.endpoint_id)
  c ← io (or_panic found)
  net ← must_net_settings ns.network_name c
  io (create_ns_link c.pid c.id)
  set_mac_prefix c net.mac_address
  set_offload ns c
  port_maps ← must_port_maps op.options
  add_port_maps ns.bridge_name net port_maps
  short_id ← io (lift (truncate_id c.id))
  io (must_set_faucet_config_file (port_yaml ns c of_port short_id))
  mirror_container op ns c of_port
  udhcpc_cmd ← start_udhcpc ns c
  set_port op.endpoint_id (record {
    of_port = of_port;
    container_inspect = some c;
    udhcpc_cmd = udhcpc_cmd;
    port_maps = op.options;
  })
  write_container op.network_id op.endpoint_id (record {
    name = c.name;
    id = c.id;
    of_port = of_port;
    mac_address = net.mac_address;
    host_ip = net.ip_address;
    labels = c.labels;
    if_name = default_interface;
  })
  ns ← get_network op.network_id
  notify (record {
    network_state = ns;
    kind = "CONTAINER";
    operation = "JOIN";
    details =
        ("name", c.name)
        ∷ ("id", c.id)
        ∷ ("port", decimal of_port)
        ∷ ("mac", net.mac_address)
        ∷ ("ip", net.ip_address)
        ∷ [];
  })

unfoldable pub must_handle_join_container : DovesnapOp → M (Unit {0})
must_handle_join_container op = deferred skip (join_container_body op)

abbrev pub must_be_joined : String → Option OfPortContainer → M OfPortContainer
must_be_joined endpoint_id none =
    panic (concat ("endpoint " ∷ endpoint_id ∷ " was not Join()d" ∷ []))
must_be_joined endpoint_id (some c) = pure c

unfoldable pub stop_udhcpc : Option (List String) → M (Unit {0})
stop_udhcpc none = skip
stop_udhcpc (some cmd) = io (call (kill_and_wait cmd)) >> skip

abbrev pub must_be_inspected : Option ContainerInspect → M ContainerInspect
must_be_inspected none = panic "nil pointer dereference"
must_be_inspected (some c) = pure c

unfoldable pub forget_endpoint : DovesnapOp → M (Unit {0})
forget_endpoint op = do
  modify (λ s. record s { of_ports = delete op.endpoint_id s.of_ports })
  delete_dynamic op.network_id (λ d. record d { containers = delete op.endpoint_id d.containers })

unfoldable pub leave_container_body : DovesnapOp → M (Unit {0})
leave_container_body op = do
  present ← gets (λ s. lookup op.endpoint_id s.of_ports)
  container_map ← must_be_joined op.endpoint_id present
  stop_udhcpc container_map.udhcpc_cmd
  short_id ← io (lift (truncate_id op.endpoint_id))
  let port_id = concat (ovs_port_prefix ∷ short_id ∷ [])
  of_port ← io (must_get_of_port port_id)
  io (del_veth_pair (veth_pair short_id))
  ns ← get_network op.network_id
  io (must_delete_port ns.bridge_name port_id)
  io (must_delete_dp_interface ns.network_name of_port)
  c ← must_be_inspected container_map.container_inspect
  net ← must_net_settings ns.network_name c
  port_maps ← must_port_maps container_map.port_maps
  delete_port_maps ns.bridge_name net port_maps
  forget_endpoint op
  io (delete_ns_link c.id)
  ns ← get_network op.network_id
  notify (record {
    network_state = ns;
    kind = "CONTAINER";
    operation = "LEAVE";
    details = ("name", c.name) ∷ ("id", c.id) ∷ ("port", decimal of_port) ∷ [];
  })

-- The deferred function sends the reply, whether or not the body has panicked.
unfoldable pub must_handle_leave_container : DovesnapOp → M (Unit {0})
must_handle_leave_container op = deferred (send_reply op empty_reply) (leave_container_body op)
