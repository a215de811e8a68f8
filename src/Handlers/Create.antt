-- ===== src/Handlers/Create.antt =====
-- mustHandleCreateNetwork of ovs/driver.go, in the order of its steps. A loop over a Go map takes the
-- order of the association list.
use dovesnap.Prelude.{
  ℕ, zero, suc, ◌+◌, ◌%◌, ◌^◌, String, Option, none, some, List, [], ◌∷◌, ◌||◌, not, str_eq,
  if◌then◌else◌,
}
use dovesnap.Prelude.Map.{Map, string_key, nat_key, insert, get_or, keys}
use dovesnap.Prelude.Text.{concat, decimal}
use dovesnap.System.{lift, ask}
use dovesnap.Naming.{patch_name}
use dovesnap.Ports.{must_get_of_port, must_lowest_free_port_on_bridge}
use dovesnap.AddPorts.{without_vlans, no_ports, every, parse_add_ports}
use dovesnap.Faucet.{
  must_set_faucet_config_file, must_set_port_acl, must_set_vlan_out_acl,
  must_set_remote_mirror_port, copro_interface_yaml, vlan_interface_yaml, local_vlan_interface_yaml,
  stack_interface_yaml, merge_dp_interfaces_yaml, merge_single_dp_yaml,
}
use dovesnap.Links.{get_mac_addr}
use dovesnap.Docker.{must_get_network_inspect_from_id}
use dovesnap.Config.{mode_nat, mode_routed, get_str_for_network}
use dovesnap.Config.Network.{get_network_state_from_resource}
use dovesnap.State.{
  NetworkState, DriverConfig, using_mirror_bridge, using_stacking, using_stack_mirroring,
}
use dovesnap.Manager.{
  M, DovesnapOp, pure, panic, io, modify, skip, get_config, get_network, get_mirror_config,
  write_external, write_other_bridge, notify, wait_group_done, deferred, ◌>>=◌, ◌>>◌,
}

abbrev pub of_port_local : ℕ
of_port_local = 4294967294

-- getExternalPortState, and the write of its result.
unfoldable pub add_external_port : String → String → ℕ → M (Unit {0})
add_external_port id if_name of_port = do
  mac_address ← io (get_mac_addr if_name)
  write_external id if_name
      (record { name = if_name; of_port = of_port; mac_address = mac_address })

-- `for add_port := range addPorts`, with the VLAN of the port or the bridge.
unfoldable pub add_vlan_ports :
    String → NetworkState → Map String ℕ → List String → String → M String
add_vlan_ports id ns vlans [] add_interfaces = pure add_interfaces
add_vlan_ports id ns vlans (add_port ∷ rest) add_interfaces = do
  of_port ← io (must_get_of_port add_port)
  add_external_port id add_port of_port
  add_vlan_ports id ns vlans rest (
      concat (
        add_interfaces
        ∷ vlan_interface_yaml of_port (concat ("Physical interface " ∷ add_port ∷ []))
            (get_or add_port vlans ns.bridge_vlan) ""
        ∷ []))

unfoldable pub add_copro_ports : String → List String → String → M String
add_copro_ports id [] add_interfaces = pure add_interfaces
add_copro_ports id (add_port ∷ rest) add_interfaces = do
  of_port ← io (must_get_of_port add_port)
  add_external_port id add_port of_port
  add_copro_ports id rest (
      concat (
        add_interfaces
        ∷ copro_interface_yaml of_port (concat ("Physical interface " ∷ add_port ∷ [])) "vlan_vid"
        ∷ []))

-- The preallocated ports, from the lowest free number on.
unfoldable pub preallocate : ℕ → ℕ → NetworkState → String → String → String
preallocate zero next_port ns default_acl add_interfaces = add_interfaces
preallocate (suc left) next_port ns default_acl add_interfaces =
    preallocate left ((next_port + 1) % 2 ^ 32) ns default_acl (
      concat (
        add_interfaces
        ∷ vlan_interface_yaml next_port "preallocated port" ns.bridge_vlan default_acl
        ∷ []))

-- The ports of both options: the YAML so far, and the ACLs by port number.
unfoldable pub add_option_ports : DovesnapOp → NetworkState → M (String × Map ℕ String)
add_option_ports op ns = do
  found ← io (lift (parse_add_ports every op.add_ports no_ports))
  add_interfaces ← add_vlan_ports op.network_id ns found.vlans (keys found.ports) ""
  copro ← io (
      lift
        (parse_add_ports without_vlans op.add_copro_ports (record no_ports { acls = found.acls })))
  add_interfaces ← add_copro_ports op.network_id (keys copro.ports) add_interfaces
  pure (add_interfaces, copro.acls)

unfoldable pub default_acl_of : NetworkState → String
default_acl_of ns =
    if str_eq ns.default_acl "" then "" else get_str_for_network ns.default_acl ns.network_name

-- The gateway's port, in the modes that have one.
unfoldable pub add_gateway_port : DovesnapOp → NetworkState → String → String → M String
add_gateway_port op ns inspected_bridge add_interfaces =
    let gateway = (do
      add_external_port op.network_id inspected_bridge of_port_local
      pure (
          concat (
            add_interfaces
            ∷ local_vlan_interface_yaml of_port_local "OVS Port default gateway" ns.bridge_vlan
                (get_str_for_network ns.nat_acl ns.network_name)
            ∷ []))) in
    if str_eq op.mode mode_nat || str_eq op.mode mode_routed then gateway else pure add_interfaces

unfoldable pub add_mirror_port : DovesnapOp → DriverConfig → NetworkState → String → M String
add_mirror_port op d ns add_interfaces =
    let mirror = (do
      sc ← get_mirror_config op.network_id
      name ← io (lift (patch_name ns.bridge_name d.mirror_bridge_name))
      peer_name ← io (lift (patch_name d.mirror_bridge_name ns.bridge_name))
      peer_of_port ← io (must_get_of_port peer_name)
      write_other_bridge op.network_id name (record {
        name = name;
        peer_name = peer_name;
        of_port = sc.lb_port;
        peer_of_port = peer_of_port;
        peer_bridge_name = d.mirror_bridge_name;
      })
      pure (
          concat (
            add_interfaces
            ∷ decimal sc.lb_port
            ∷ ": {description: mirror, output_only: true},"
            ∷ []))) in
    if using_mirror_bridge d then mirror else pure add_interfaces

abbrev bridge_description : NetworkState → String
bridge_description ns = concat ("OVS Bridge " ∷ ns.bridge_name ∷ [])

-- The YAML of the network alone, or with the stacking bridge's end of the link.
unfoldable pub stack_or_single : DovesnapOp → DriverConfig → NetworkState → String → M String
stack_or_single op d ns add_interfaces =
    let egress_pipeline = not (str_eq ns.vlan_out_acl "") in
    let stacked = (do
      name ← io (lift (patch_name ns.bridge_name d.stack_dp_name))
      peer_name ← io (lift (patch_name d.stack_dp_name ns.bridge_name))
      of_port ← io (must_get_of_port name)
      peer_of_port ← io (must_get_of_port peer_name)
      write_other_bridge op.network_id name (record {
        name = name;
        peer_name = peer_name;
        of_port = of_port;
        peer_of_port = peer_of_port;
        peer_bridge_name = d.stack_dp_name;
      })
      pure (
          concat (
            "{dps: {"
            ∷ merge_dp_interfaces_yaml ns.network_name ns.bridge_dpid_uint (bridge_description ns)
                (concat
                  (add_interfaces ∷ stack_interface_yaml of_port d.stack_dp_name peer_of_port ∷ []))
                egress_pipeline
            ∷ " "
            ∷ d.stack_dp_name
            ∷ ": {interfaces: {"
            ∷ stack_interface_yaml peer_of_port ns.network_name of_port
            ∷ "}}}}"
            ∷ []))) in
    let single = pure (
      merge_single_dp_yaml ns.network_name ns.bridge_dpid_uint (bridge_description ns)
        add_interfaces egress_pipeline) in
    if using_stacking d then stacked else single

unfoldable pub set_vlan_acl : NetworkState → M (Unit {0})
set_vlan_acl ns =
    let acl = get_str_for_network ns.vlan_out_acl ns.network_name in
    let set = io (must_set_vlan_out_acl (decimal ns.bridge_vlan) acl) >> skip in
    if str_eq acl "" then skip else set

unfoldable pub set_remote_mirror : DovesnapOp → DriverConfig → NetworkState → M (Unit {0})
set_remote_mirror op d ns =
    let set = (do
      sc ← get_mirror_config op.network_id
      io (
          must_set_remote_mirror_port ns.network_name sc.lb_port sc.tunnel_vid sc.remote_dp_name
            sc.remote_mirror_port)
      skip) in
    if using_stack_mirroring d then set else skip

unfoldable pub set_port_acls : NetworkState → Map ℕ String → M (Unit {0})
set_port_acls ns [] = skip
set_port_acls ns ((port_no, acls) ∷ rest) =
    let network_acls = get_str_for_network acls ns.network_name in
    let set = io (must_set_port_acl ns.network_name port_no network_acls) >> skip in
    (if str_eq network_acls "" then skip else set) >> set_port_acls ns rest

abbrev pub no_error : Option String → M (Unit {0})
no_error none = skip
no_error (some m) = panic m

-- `d.stackMirrorConfigs[id] = ...; d.networks[id] = ns`
unfoldable pub store_network : DovesnapOp → NetworkState → M (Unit {0})
store_network op ns = modify (λ s. record s {
  stack_mirror_configs = insert op.network_id op.new_stack_mirror_config s.stack_mirror_configs;
  networks = insert op.network_id ns s.networks;
})

unfoldable pub create_network_body : DovesnapOp → M (Unit {0})
create_network_body op = do
  net_inspect ← io (must_get_network_inspect_from_id op.network_id)
  d ← get_config
  hex_to_decimal ← io (ask (λ env. env.hex_to_decimal))
  inspected ←
      io (lift (get_network_state_from_resource hex_to_decimal net_inspect d.short_engine_id))
  no_error inspected.1
  let ns = record op.new_network_state { network_name = inspected.0.network_name }
  store_network op ns
  ports ← add_option_ports op ns
  next_pre_port ← io (must_lowest_free_port_on_bridge ns.bridge_name)
  let add_interfaces =
      preallocate ns.pre_allocate_ports next_pre_port ns (default_acl_of ns) ports.0
  add_interfaces ← add_gateway_port op ns inspected.0.bridge_name add_interfaces
  add_interfaces ← add_mirror_port op d ns add_interfaces
  config_yaml ← stack_or_single op d ns add_interfaces
  io (must_set_faucet_config_file config_yaml)
  set_vlan_acl ns
  set_remote_mirror op d ns
  set_port_acls ns ports.1
  ns ← get_network op.network_id
  notify (record { network_state = ns; kind = "NETWORK"; operation = "CREATE"; details = [] })

unfoldable pub must_handle_create_network : DovesnapOp → M (Unit {0})
must_handle_create_network op = deferred wait_group_done (create_network_body op)
