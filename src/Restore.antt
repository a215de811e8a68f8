-- ===== src/Restore.antt =====
-- restoreNetworks of ovs/driver.go: at its start the driver asks docker for its networks and sends the
-- resource manager a message for each.
pub mod Sends
use dovesnap.Prelude.{
  String, Bool, true, false, Option, none, some, List, [], ◌∷◌, str_eq, if◌then◌else◌,
}
use dovesnap.Prelude.Map.{string_key, insert, keys}
use dovesnap.Outcome.{Result, ok, err}
use dovesnap.System
use dovesnap.System.{Io, lift, ask}
use dovesnap.State.{NetworkState, StackMirrorConfig}
use dovesnap.Config.{get_stack_mirror_config_from_resource}
use dovesnap.Config.Network.{get_network_state_from_resource, with_default_controller}
use dovesnap.Docker.{must_get_network_inspect_from_id, must_get_network_list}
use dovesnap.Links.{if_up, get_iface_addr}
use dovesnap.Manager.{M, DovesnapOp, pure, io, modify, skip, get_config, ◌>>=◌, ◌>>◌}
use dovesnap.Channel.{zero_message, send_message, wait_group_add, wait_group_wait}
use dovesnap.Handlers.Create.{no_error}

abbrev pub by_address : Result String → String
by_address (ok _) = "create"
by_address (err _) = "recreatebadbridge"

-- The operation of the message, by the bridge's interface: it is down, or up without an address.
unfoldable pub restored_operation : String → Io String
restored_operation bridge_name =
    let when_up =
      System.◌>>=◌ (get_iface_addr bridge_name) (λ addr. System.pure (by_address addr)) in
    System.◌>>=◌ (if_up bridge_name)
      (λ up. if up then when_up else System.pure "recreatedownbridge")

-- `createMsg`, of a restored network: it leaves the coprocessor ports out.
unfoldable pub restored_message : String → String → NetworkState → StackMirrorConfig → DovesnapOp
restored_message id operation ns sc = record zero_message {
  new_network_state = ns;
  new_stack_mirror_config = sc;
  add_ports = ns.add_ports;
  mode = ns.mode;
  network_id = id;
  endpoint_id = ns.bridge_name;
  operation = operation;
}

-- One round of the loop, up to the message that it sends.
unfoldable pub prepare_restored : String → M DovesnapOp
prepare_restored id = do
  net_inspect ← io (must_get_network_inspect_from_id id)
  d ← get_config
  hex_to_decimal ← io (ask (λ env. env.hex_to_decimal))
  inspected ←
      io (lift (get_network_state_from_resource hex_to_decimal net_inspect d.short_engine_id))
  no_error inspected.1
  let sc = get_stack_mirror_config_from_resource d net_inspect
  modify (λ s. record s { stack_mirror_configs = insert id sc s.stack_mirror_configs })
  let ns = with_default_controller d inspected.0
  operation ← io (restored_operation ns.bridge_name)
  pure (restored_message id operation ns sc)

unfoldable pub restore_network : String → M (Unit {0})
restore_network id = do op ← prepare_restored id; wait_group_add; send_message op

unfoldable pub restore_each : List String → M (Unit {0})
restore_each [] = skip
restore_each (id ∷ ids) = restore_network id >> restore_each ids

-- The loop runs beside the resource manager, which takes the messages.
unfoldable pub restore_networks : M (Unit {0})
restore_networks = do
  netlist ← io must_get_network_list
  restore_each (keys netlist)
  wait_group_wait
