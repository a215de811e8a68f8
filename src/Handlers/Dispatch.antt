-- ===== src/Handlers/Dispatch.antt =====
-- resourceManager of ovs/driver.go: what it does with one message, and with one round of its timer.
use dovesnap.Prelude.{str_eq, if◌then◌else◌}
use dovesnap.Outcome.{Outcome, returned, panicked, exited, blocked}
use dovesnap.Manager.{
  M, DovesnapOp, network_reply, networks_reply, io, gets, skip, get_config, get_network, send_reply,
  ◌>>=◌, ◌>>◌,
}
use dovesnap.Handlers.Bridges.{init_bridge_and_ports, must_delete_bridge_and_ports}
use dovesnap.Handlers.Create.{must_handle_create_network}
use dovesnap.Handlers.Delete.{must_handle_delete_network}
use dovesnap.Handlers.Endpoint.{
  must_handle_reserve_port, must_handle_join_container, must_handle_leave_container,
}
use dovesnap.Handlers.Reconcile.{reconcile_ovs, reconcile_dhcp_ip}

-- A panic that nothing recovers ends the process.
abbrev pub crashed : Outcome (Unit {0}) → Outcome (Unit {0})
crashed (returned a) = returned a
crashed (panicked m) = exited m
crashed (exited m) = exited m
crashed blocked = blocked

unfoldable pub unrecovered : M (Unit {0}) → M (Unit {0})
unrecovered m env s = let r = m env s in (crashed r.0, r.1)

-- Nothing in the body panics, so the deferred function sends the network's state.
unfoldable pub must_handle_get_network : DovesnapOp → M (Unit {0})
must_handle_get_network op = do ns ← get_network op.network_id; send_reply op (network_reply ns)

unfoldable pub must_handle_networks : DovesnapOp → M (Unit {0})
must_handle_networks op = do
  networks ← gets (λ s. s.networks)
  send_reply op (networks_reply networks)

unfoldable pub driver_init_bridge : DovesnapOp → M (Unit {0})
driver_init_bridge op = do
  d ← get_config
  io (init_bridge_and_ports d op.new_network_state op.new_stack_mirror_config)

unfoldable pub recreate_bad_bridge : DovesnapOp → M (Unit {0})
recreate_bad_bridge op = do
  d ← get_config
  io (must_delete_bridge_and_ports d op.endpoint_id)
  driver_init_bridge op
  must_handle_create_network op

unfoldable pub recreate_down_bridge : DovesnapOp → M (Unit {0})
recreate_down_bridge op =
    must_handle_delete_network op >> driver_init_bridge op >> must_handle_create_network op

unfoldable pub reconcile : M (Unit {0})
reconcile = reconcile_ovs >> reconcile_dhcp_ip

-- The switch over `opMsg.Operation`. "quit", which ends the loop, and unknown operations do nothing.
unfoldable pub operate : DovesnapOp → M (Unit {0})
operate op =
    if str_eq op.operation "recreatebadbridge"
    then recreate_bad_bridge op
    else if str_eq op.operation "recreatedownbridge"
    then recreate_down_bridge op
    else if str_eq op.operation "create"
    then must_handle_create_network op
    else if str_eq op.operation "delete"
    then must_handle_delete_network op
    else if str_eq op.operation "join"
    then must_handle_join_container op
    else if str_eq op.operation "leave"
    then must_handle_leave_container op
    else if str_eq op.operation "reserveport"
    then must_handle_reserve_port op
    else if str_eq op.operation "getnetwork"
    then must_handle_get_network op
    else if str_eq op.operation "networks"
    then reconcile >> must_handle_networks op
    else skip

-- One message of the resource manager's loop.
unfoldable pub step : DovesnapOp → M (Unit {0})
step op = unrecovered (operate op)

-- One round of its timer.
unfoldable pub tick : M (Unit {0})
tick = unrecovered reconcile
