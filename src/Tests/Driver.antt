-- ===== src/Tests/Driver.antt =====
-- The theorems on requests and on the running driver, at a run that serves a request to delete a
-- network and handles its message.
use dovesnap.Prelude.{
  ◌++◌, ◌<◌, length, arith, String, Bool, true, false, Option, none, some, List, [], ◌∷◌, ◌≡◌, refl,
  All,
}
use dovesnap.Prelude.Map.{string_key}
use dovesnap.Outcome.{returned, HasEnded}
use dovesnap.Manager.{Manager, DovesnapOp, zero_network}
use dovesnap.Plugin.{
  PluginRequest, delete_network_request, leave_request, join_message, serve, create_network,
  delete_message, join, JoinResponse,
}
use dovesnap.Config.{truncate_id}
use dovesnap.Links.{veth_pair}
use dovesnap.Plugin.Answers.{IsAnswered, create_network_answers}
use dovesnap.Handlers.Dispatch.{step, tick}
use dovesnap.Driver.{request, message, Reaches, here, onward, taken, started}
use dovesnap.Driver.Sound.{IsSound, reached-IsSound}
use dovesnap.Driver.Joining.{AllUncounted, join_after_changes, join_returns}
use dovesnap.Driver.Registry.{Act, replay, registry, IsSame}
use dovesnap.Driver.Refines.{Refines, step-Refines, Follows, handled, run_refines}
use dovesnap.Tests.Data
use dovesnap.Tests.Data.{all_five, manager, plain_config}

create_network_answers_example :
    IsAnswered Data.request manager
      (create_network Data.request all_five manager).0
      (create_network Data.request all_five manager).1
create_network_answers_example = create_network_answers Data.request all_five manager

step-Refines_example :
    Refines
      (Data.message "delete" true)
      manager
      (step (Data.message "delete" true) all_five manager).1
step-Refines_example = step-Refines (Data.message "delete" true) all_five manager

abbrev first : Manager
first = started plain_config

abbrev asked : Manager
asked = (serve (delete_network_request "n1") all_five first).1

abbrev deleted : Manager
deleted = (step (delete_message "n1") all_five (taken [] asked)).1

served : HasEnded (serve (delete_network_request "n1") all_five first).0
unfolding HasEnded serve dovesnap.Plugin.delete_network dovesnap.Channel.wait_group_add
    dovesnap.Manager.modify dovesnap.Channel.send_message dovesnap.Manager.gets
served = tt

stepped : (step (delete_message "n1") all_five (taken [] asked)).0 ≡ returned tt
unfolding step dovesnap.Handlers.Dispatch.unrecovered dovesnap.Handlers.Dispatch.operate
    delete_message dovesnap.Handlers.Delete.must_handle_delete_network dovesnap.Manager.deferred
    dovesnap.Manager.deferred_after dovesnap.Handlers.Delete.delete_network_body
    dovesnap.Manager.get_network dovesnap.Manager.gets dovesnap.Manager.io
    dovesnap.Faucet.must_delete_dp dovesnap.Handlers.Delete.delete_nat dovesnap.Prelude.Map.lookup
    serve dovesnap.Plugin.delete_network dovesnap.Channel.wait_group_add dovesnap.Manager.modify
    dovesnap.Channel.send_message dovesnap.Manager.pure
    dovesnap.Handlers.Bridges.must_delete_bridge_and_ports dovesnap.State.using_mirror_bridge
    dovesnap.State.using_stacking dovesnap.Bridge.must_delete_bridge dovesnap.Commands.must_vs_ctl
    dovesnap.Handlers.Delete.forget_network dovesnap.Manager.send_reply dovesnap.Manager.notify
    dovesnap.Manager.wait_group_done
stepped = refl

in_channel : asked.queue ≡ delete_message "n1" ∷ []
unfolding serve dovesnap.Plugin.delete_network dovesnap.Channel.wait_group_add
    dovesnap.Manager.modify dovesnap.Channel.send_message dovesnap.Manager.gets
in_channel = refl

run : Reaches first deleted
run = onward first asked deleted (request (delete_network_request "n1") all_five first served) (
    onward asked deleted deleted
      (message (delete_message "n1") [] all_five asked in_channel stepped) (here deleted))

reached-IsSound_example : IsSound deleted
reached-IsSound_example = reached-IsSound plain_config deleted run

run_refines_example :
    (acts : List Act) × Follows (handled first deleted run) acts
    × IsSame (replay acts (registry first)) (registry deleted)
run_refines_example = run_refines first deleted run

abbrev answer : JoinResponse
answer = record { src_name = "ethcabcde"; dst_prefix = "eth"; gateway = "" }

answered : (join "n1" "abcdef" none all_five deleted).0 ≡ returned answer
unfolding join dovesnap.Channel.wait_group_wait dovesnap.Manager.gets step
    dovesnap.Handlers.Dispatch.unrecovered dovesnap.Handlers.Dispatch.operate delete_message
    dovesnap.Handlers.Delete.must_handle_delete_network dovesnap.Manager.deferred
    dovesnap.Manager.deferred_after dovesnap.Handlers.Delete.delete_network_body
    dovesnap.Manager.get_network dovesnap.Manager.io dovesnap.Faucet.must_delete_dp
    dovesnap.Handlers.Delete.delete_nat dovesnap.Prelude.Map.lookup serve
    dovesnap.Plugin.delete_network dovesnap.Channel.wait_group_add dovesnap.Manager.modify
    dovesnap.Channel.send_message dovesnap.Manager.pure
    dovesnap.Handlers.Bridges.must_delete_bridge_and_ports dovesnap.State.using_mirror_bridge
    dovesnap.State.using_stacking dovesnap.Bridge.must_delete_bridge dovesnap.Commands.must_vs_ctl
    dovesnap.Handlers.Delete.forget_network dovesnap.Manager.send_reply dovesnap.Manager.notify
    dovesnap.Manager.wait_group_done dovesnap.Config.truncate_id dovesnap.Links.veth_pair
    dovesnap.Prelude.Map.delete
answered = refl

join_after_changes_example :
    AllUncounted deleted.queue × (answer.gateway ≡ (zero_network "n1" deleted).gateway)
join_after_changes_example =
    join_after_changes plain_config deleted "n1" "abcdef" none all_five answer run answered

abbrev left : Manager
left = (serve (leave_request "n1" "abcdef") all_five first).1

left_served : HasEnded (serve (leave_request "n1" "abcdef") all_five first).0
unfolding HasEnded serve dovesnap.Plugin.leave dovesnap.Channel.send_message dovesnap.Manager.gets
    dovesnap.Manager.modify
left_served = tt

run_left : Reaches first left
run_left =
    onward first left left (request (leave_request "n1" "abcdef") all_five first left_served)
      (here left)

left_free : AllUncounted left.queue
unfolding serve dovesnap.Plugin.leave dovesnap.Plugin.endpoint_message dovesnap.Channel.send_message
    dovesnap.Manager.gets dovesnap.Manager.modify dovesnap.Handlers.KeepsDispatch.is_counted
    dovesnap.Handlers.KeepsDispatch.is_creating dovesnap.Handlers.KeepsDispatch.is_deleting
left_free = (refl, tt)

left_room : length left.queue < 64
unfolding serve dovesnap.Plugin.leave dovesnap.Channel.send_message dovesnap.Manager.gets
    dovesnap.Manager.modify
left_room = omega arith

cut : truncate_id "0123456789" ≡ returned "01234"
unfolding truncate_id
cut = refl

join_returns_example : join "n1" "0123456789" none all_five left ≡ (
  returned (record {
    src_name = (veth_pair "01234").1;
    dst_prefix = "eth";
    gateway = (zero_network "n1" left).gateway;
  }),
  record left { queue = left.queue ++ (join_message "n1" "0123456789" none ∷ []) },
)
join_returns_example =
    join_returns plain_config left "n1" "0123456789" "01234" none all_five run_left left_free
      left_room cut
