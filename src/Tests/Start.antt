-- ===== src/Tests/Start.antt =====
-- The theorems on the start of the driver and on restoring, at a world where each call succeeds, and
-- where no interface has the empty name.
use dovesnap.Prelude.{
  ℕ, String, Bool, true, List, [], ◌∷◌, ◌++◌, suc, some, ◌≡◌, refl, arith, str_eq, length,
  if◌then◌else◌,
}
use dovesnap.Prelude.Text.{split}
use dovesnap.Outcome.{Result, returned, ok, err}
use dovesnap.System.{Env, Call, sleep_for, interface_flags, NetworkInspect}
use dovesnap.State.{DriverConfig, using_stack_mirroring}
use dovesnap.Manager.{DovesnapOp}
use dovesnap.Retries.{IsRetried}
use dovesnap.Faucet.Client.{dial_loop, dial_rounds, dial_rounds-IsRetried}
use dovesnap.Start.{Flags, default_flags, given_config, named_config, new_driver}
use dovesnap.Start.Checks.{new_driver_checks}
use dovesnap.Restore.{restore_network}
use dovesnap.Restore.Sends.{IsNamed, IsRestored, restore_network_sends}
use dovesnap.Tests.Data.{all_five, manager}

abbrev pauses : List Call → List ℕ
pauses [] = []
pauses (sleep_for n ∷ h) = n ∷ pauses h
pauses (_ ∷ h) = pauses h

abbrev refusing : Env
refusing = record all_five { answer = λ h c. err "connection refused" }

dial_rounds-IsRetried_example :
    IsRetried
      (dial_loop "localhost:59999")
      refusing
      0
      5
      ""
      []
      (dial_rounds 5 "localhost:59999" 1 refusing [])
dial_rounds-IsRetried_example = dial_rounds-IsRetried 5 "localhost:59999" refusing [] (omega arith)

-- The default number of retries, with pauses of 4, 10, 22, 46 and 94 seconds, the newest first.
dialled_pauses :
    pauses (dial_rounds 5 "localhost:59999" 1 refusing []).1
    ≡ 94000000000 ∷ 46000000000 ∷ 22000000000 ∷ 10000000000 ∷ 4000000000 ∷ []
unfolding dial_rounds
dialled_pauses = refl

abbrev flags : Flags
flags = record default_flags {
  stacking_interfaces = "sw1:1:eth1";
  stack_mirror_interface = "sw1:5";
  default_controllers = "tcp:127.0.0.1:6653";
}

abbrev config : DriverConfig
config = named_config "000005" (given_config flags ("sw1" ∷ "5" ∷ []))

started : (new_driver flags all_five []).0 ≡ returned config
unfolding new_driver dovesnap.Links.ensure_dir_exists dovesnap.Start.checked_mirror_interface split
    dovesnap.Start.auth_ips dovesnap.Docker.must_get_docker_client
    dovesnap.Docker.must_get_short_engine_id dovesnap.Faucet.Client.must_get_grpc_client dial_rounds
    dovesnap.Bridge.wait_for_ovs dovesnap.Bridge.wait_rounds dovesnap.Bridge.show
    dovesnap.Commands.vs_ctl dovesnap.Start.create_bridges dovesnap.State.using_mirror_bridge
    named_config given_config dovesnap.State.using_stacking
    dovesnap.Handlers.Stacking.create_stacking_bridge dovesnap.Config.must_get_uint_from_hex_str
    dovesnap.Handlers.Stacking.must_get_stack_dp dovesnap.Config.base36_to_16
    dovesnap.Prelude.Text.to_upper dovesnap.Config.pad dovesnap.Prelude.Text.to_lower
    dovesnap.Config.default_uint dovesnap.Prelude.Text.parse_uint dovesnap.Bridge.bridge_exists
    using_stack_mirroring dovesnap.Handlers.Bridges.create_loopback_bridge
    dovesnap.Bridge.add_bridge_exists dovesnap.Bridge.make_loopback_bridge
    dovesnap.Commands.must_of_ctl
started = refl

new_driver_checks_example :
    (config.stack_mirror_interface ≡ split ":" flags.stack_mirror_interface)
    × (using_stack_mirroring config ≡ true → length config.stack_mirror_interface ≡ 2)
new_driver_checks_example = new_driver_checks flags all_five [] config started

abbrev found : NetworkInspect
found = record {
  id = "0123456789abcdef";
  name = "testnet";
  options = some (("ovs.bridge.dpid", "0x1") ∷ []);
  ipam_config = ("10.0.0.0/24", "10.0.0.1") ∷ [];
  containers = [];
}

abbrev flags_answer : Call → Result String
flags_answer (interface_flags name) = if str_eq name "" then err "no such interface" else ok "up"
flags_answer _ = ok "10.0.0.1/24"

abbrev restarting : Env
restarting = record all_five { answer = λ h c. flags_answer c; inspect_network = λ h id. ok found }

restored : (restore_network "0123456789abcdef" restarting manager).0 ≡ returned tt
unfolding restore_network dovesnap.Restore.prepare_restored dovesnap.Manager.io
    dovesnap.Docker.must_get_network_inspect_from_id dovesnap.Docker.inspect_rounds
    dovesnap.Manager.gets dovesnap.Config.Network.get_network_state_from_resource
    dovesnap.Config.Network.resource_network_state dovesnap.Config.must_get_uint_from_hex_str
    dovesnap.Config.get_str_option_from_resource dovesnap.Prelude.Map.lookup
    dovesnap.Config.default_uint dovesnap.Prelude.Text.parse_uint
    dovesnap.Config.Network.must_get_bridge_name_from_resource dovesnap.Config.truncate_id
    dovesnap.Manager.pure dovesnap.Manager.modify dovesnap.Restore.restored_operation
    dovesnap.Links.if_up dovesnap.Config.Network.with_default_controller
    dovesnap.Config.Network.inspected_state dovesnap.Prelude.Text.concat
    dovesnap.Prelude.Text.contains dovesnap.Links.get_iface_addr dovesnap.Channel.wait_group_add
    dovesnap.Channel.send_message
restored = refl

named : IsNamed restarting
named h = ("no such interface", refl)

restore_network_sends_example :
    (op : DovesnapOp) × IsRestored restarting "0123456789abcdef" op
      (restore_network "0123456789abcdef" restarting manager).1.calls
    × ((restore_network "0123456789abcdef" restarting manager).1.queue ≡ manager.queue ++ (op ∷ []))
    × ((restore_network "0123456789abcdef" restarting manager).1.pending ≡ suc manager.pending)
restore_network_sends_example =
    restore_network_sends restarting "0123456789abcdef" manager named restored
