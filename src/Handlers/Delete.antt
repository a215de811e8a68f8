-- ===== src/Handlers/Delete.antt =====
-- mustHandleDeleteNetwork of ovs/driver.go.
use dovesnap.Prelude.{String, [], str_eq, if◌then◌else◌}
use dovesnap.Prelude.Map.{string_key, delete}
use dovesnap.Outcome.{Result, ok, err}
use dovesnap.Commands.{nat_out}
use dovesnap.Faucet.{must_delete_dp}
use dovesnap.Bridge.{gateway_address}
use dovesnap.Config.{mode_nat}
use dovesnap.State.{NetworkState}
use dovesnap.Manager.{
  M, DovesnapOp, empty_reply, fatal, io, modify, skip, get_config, get_network, send_reply, notify,
  wait_group_done, deferred, ◌>>=◌, ◌>>◌,
}
use dovesnap.Handlers.Bridges.{must_delete_bridge_and_ports}

abbrev pub nat_deleted : Result String → M (Unit {0})
nat_deleted (ok _) = skip
nat_deleted (err _) = fatal "Could not delete NAT rules for bridge"

unfoldable pub delete_nat : NetworkState → M (Unit {0})
delete_nat ns =
    let rules = io (nat_out (gateway_address ns) "-D") >>= nat_deleted in
    if str_eq ns.mode mode_nat then rules else skip

unfoldable pub forget_network : String → M (Unit {0})
forget_network id = modify (λ s. record s {
  networks = delete id s.networks;
  stack_mirror_configs = delete id s.stack_mirror_configs;
})

-- The body, up to its deferred function.
unfoldable pub delete_network_body : DovesnapOp → M (Unit {0})
delete_network_body op = do
  ns ← get_network op.network_id
  io (must_delete_dp ns.network_name)
  delete_nat ns
  d ← get_config
  io (must_delete_bridge_and_ports d ns.bridge_name)
  forget_network op.network_id
  send_reply op empty_reply
  notify (record { network_state = ns; kind = "NETWORK"; operation = "DELETE"; details = [] })

unfoldable pub must_handle_delete_network : DovesnapOp → M (Unit {0})
must_handle_delete_network op = deferred wait_group_done (delete_network_body op)
