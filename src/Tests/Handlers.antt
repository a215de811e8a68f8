-- ===== src/Tests/Handlers.antt =====
-- The theorems on the handlers, at concrete messages.
use dovesnap.Prelude.{
  ℕ, String, Bool, true, false, Option, none, some, List, [], ◌∷◌, ◌≡◌, ◌≢◌, refl, ap, ◌⊎◌, arith,
  length, str_eq, eq_iff, if◌then◌else◌,
}
use dovesnap.Prelude.Map.{string_key, lookup}
use dovesnap.Outcome.{returned, HasEnded}
use dovesnap.Manager
use dovesnap.Manager.{Manager, DovesnapOp, empty_reply}
use dovesnap.Bridge.Cleanup.{IsCleaned, run_config-IsCleaned}
use dovesnap.Bridge.{run_config}
use dovesnap.Handlers.Create.{create_network_body, must_handle_create_network}
use dovesnap.Handlers.Delete.{delete_network_body, must_handle_delete_network}
use dovesnap.System.{EndpointSettings}
use dovesnap.State.{PortMap, float64, fields}
use dovesnap.Handlers.PortMaps.{must_get_port_map}
use dovesnap.Handlers.PortRules.{readable_rules, reading}
use dovesnap.Handlers.Endpoint.{delete_port_maps, leave_container_body, must_handle_leave_container}
use dovesnap.Handlers.Dispatch.{step, tick, recreate_down_bridge}
use dovesnap.Handlers.WellFormed.{IsWellFormed}
use dovesnap.Handlers.Invariant.{Reaches, here, message as then_message, timer, reaches_preserves}
use dovesnap.Handlers.Isolation.{step_isolated}
use dovesnap.Handlers.Release.{create_releases, delete_releases, leave_replies}
use dovesnap.Handlers.Ends.{delete_forgets, down_bridge_never_returns}
use dovesnap.Tests.Data.{all_five, manager, message, network}

manager-IsWellFormed : IsWellFormed manager
unfolding IsWellFormed lookup
manager-IsWellFormed id ns e = ground (arith, eq_iff "n1" id, made ns, e)
  where
    made : (w : _) → network ≡ w → w.dynamic.made ≡ true
    made w h = cc

abbrev after_two : Manager
after_two = (tick all_five (step (message "delete" true) all_five manager).1).1

two_rounds : Reaches all_five manager after_two
two_rounds =
    then_message (message "delete" true) manager after_two (λ _. refl)
      (timer (step (message "delete" true) all_five manager).1 after_two (here after_two))

reaches_preserves_example : IsWellFormed after_two
reaches_preserves_example =
    reaches_preserves all_five manager after_two two_rounds manager-IsWellFormed

step_isolated_example :
    lookup "n2" manager.networks
    ≡ lookup "n2" (step (message "delete" true) all_five manager).1.networks
step_isolated_example = step_isolated (message "delete" true) "n2" all_five manager refl refl

created : HasEnded (create_network_body (message "create" true) all_five manager).0
unfolding HasEnded create_network_body Manager.io dovesnap.Docker.must_get_network_inspect_from_id
    dovesnap.Docker.inspect_rounds
created = tt

create_releases_example :
    ((must_handle_create_network (message "create" true) all_five manager).0 ≡ returned tt)
    × ((must_handle_create_network (message "create" true) all_five manager).1.pending ≡ 0)
create_releases_example = create_releases (message "create" true) all_five manager 0 refl created

deleted : (delete_network_body (message "delete" true) all_five manager).0 ≡ returned tt
unfolding delete_network_body Manager.get_network Manager.gets Manager.io
    dovesnap.Faucet.must_delete_dp dovesnap.Handlers.Delete.delete_nat lookup Manager.pure
    dovesnap.Handlers.Bridges.must_delete_bridge_and_ports dovesnap.State.using_mirror_bridge
    dovesnap.State.using_stacking dovesnap.Bridge.must_delete_bridge dovesnap.Commands.must_vs_ctl
    dovesnap.Handlers.Delete.forget_network Manager.modify Manager.send_reply Manager.notify
deleted = refl

deleted_ended : HasEnded (delete_network_body (message "delete" true) all_five manager).0
unfolding HasEnded
deleted_ended = rw deleted tt

delete_releases_example :
    ((must_handle_delete_network (message "delete" true) all_five manager).0 ≡ returned tt)
    × ((must_handle_delete_network (message "delete" true) all_five manager).1.pending ≡ 0)
delete_releases_example =
    delete_releases (message "delete" true) all_five manager 0 refl deleted_ended

delete_forgets_example :
    (lookup "n1" (must_handle_delete_network (message "delete" true) all_five manager).1.networks
      ≡ none)
    × (lookup "n1"
          (must_handle_delete_network
            (message "delete" true)
            all_five
            manager).1.stack_mirror_configs
        ≡ none)
delete_forgets_example = delete_forgets (message "delete" true) all_five manager deleted

left : HasEnded (leave_container_body (message "leave" true) all_five manager).0
unfolding HasEnded leave_container_body Manager.gets lookup Manager.pure
    dovesnap.Handlers.Endpoint.stop_udhcpc Manager.io dovesnap.Config.truncate_id
    dovesnap.Ports.must_get_of_port dovesnap.Prelude.Text.trim_newline dovesnap.Links.del_veth_pair
    Manager.get_network dovesnap.Ports.must_delete_port dovesnap.Faucet.must_delete_dp_interface
    dovesnap.Handlers.Endpoint.must_net_settings dovesnap.Handlers.Endpoint.delete_port_maps
    dovesnap.Handlers.Endpoint.forget_endpoint Manager.modify Manager.delete_dynamic
    dovesnap.Commands.must_vs_ctl dovesnap.Links.delete_ns_link Manager.notify
    dovesnap.Ports.get_of_port dovesnap.Ports.parse_uint32 dovesnap.Prelude.Text.parse_uint
    dovesnap.Prelude.Text.scan dovesnap.Prelude.Text.is_digit
left = tt

leave_replies_example :
    ((must_handle_leave_container (message "leave" true) all_five manager).0 ≡ returned tt)
    × ((must_handle_leave_container (message "leave" true) all_five manager).1.replies
        ≡ empty_reply ∷ [])
leave_replies_example = leave_replies (message "leave" true) all_five manager refl left

down_bridge_never_returns_example :
    (recreate_down_bridge (message "recreatedownbridge" false) all_five manager).0 ≢ returned tt
down_bridge_never_returns_example =
    down_bridge_never_returns (message "recreatedownbridge" false) all_five manager refl refl

run_config-IsCleaned_example :
    IsCleaned "ovsbr" (run_config "ovsbr" (("set-controller" ∷ "ovsbr" ∷ []) ∷ []) all_five [])
run_config-IsCleaned_example =
    run_config-IsCleaned "ovsbr" (("set-controller" ∷ "ovsbr" ∷ []) ∷ []) all_five []

abbrev two_maps : List PortMap
two_maps =
    fields (
      ("HostPort", float64 false 80 0)
      ∷ ("Port", float64 false 8080 0)
      ∷ ("Proto", float64 false 6 0)
      ∷ [])
    ∷ fields (
        ("HostPort", float64 false 53 0)
        ∷ ("Port", float64 false 53 0)
        ∷ ("Proto", float64 false 17 0)
        ∷ [])
    ∷ []

abbrev settings : EndpointSettings
settings = record {
  mac_address = "02:42:ac:11:00:02";
  ip_address = "10.0.0.2";
  gateway = "10.0.0.1";
}

two_maps_read :
    (reading two_maps ≡ returned tt) × (length (readable_rules "ovsbr" settings two_maps) ≡ 8)
unfolding reading readable_rules must_get_port_map lookup dovesnap.Handlers.PortRules.rules_of_one
two_maps_read = (refl, refl)
