-- ===== src/Plugin/Answers.antt =====
-- What CreateNetwork of ovs/driver.go has done when it answers.
use dovesnap.Prelude.{suc, String, Bool, true, false, [], ◌∷◌, ◌++◌, ◌≡◌, refl, ap, if◌then◌else◌}
use dovesnap.Outcome.{
  Outcome, returned, panicked, exited, blocked, Result, ok, err, >>=-eq-returned,
}
use dovesnap.System.{Env, ask, lift}
use dovesnap.State.{NetworkState, DriverConfig}
use dovesnap.Config.{
  CreateNetworkRequest, get_stack_mirror_config, must_get_bridge_name, must_get_bridge_mode,
  must_get_gateway_ip, must_get_uint_from_hex_str,
}
use dovesnap.Config.Network.{new_network_state, created_state, check_dhcp, must_get_bridge_dpid}
use dovesnap.Manager.{M, Manager, DovesnapOp, get_config, io, gets, modify, continue, ◌>>◌}
use dovesnap.Manager.Triples.{Yields, value_bind, value_then, value_pure, value_lift}
use dovesnap.Channel.Traffic.{SameTraffic, traffic_laws}
use dovesnap.Channel.{send_message, wait_group_add, recovered, as_error, wait}
use dovesnap.Links.{must_set_interface_mtu}
use dovesnap.Plugin.Keeps.{keep_prepare}
use dovesnap.Plugin.{
  validate_add_ports, init_if_new, create_message, prepare_network, create_network,
  re_or_create_network,
}

-- A message of an operation for the network of the request, whose state has its maps.
pub record IsRequested (r : CreateNetworkRequest) (wanted : String) (op : DovesnapOp) : Type 0 where
  pub operation : op.operation ≡ wanted
  pub network_id : op.network_id ≡ r.network_id
  pub made : op.new_network_state.dynamic.made ≡ true

pub made_of :
    {x y : NetworkState} → returned x ≡ returned y → x.dynamic.made ≡ true → y.dynamic.made ≡ true
made_of e h = cc

new_network_state_made :
    (hex : String → String) (d : DriverConfig) (r : CreateNetworkRequest) (ns : NetworkState)
    → new_network_state hex d r ≡ returned ns
    → ns.dynamic.made ≡ true
unfolding new_network_state created_state
new_network_state_made hex d r ns h =
    let name = >>=-eq-returned (must_get_bridge_name r) _ h in
    let mode = >>=-eq-returned (must_get_bridge_mode r) _ name.2 in
    let gateway = >>=-eq-returned (must_get_gateway_ip r) _ mode.2 in
    let dhcp = >>=-eq-returned (check_dhcp r mode.0 gateway.0.0) _ gateway.2 in
    let dpid = >>=-eq-returned (must_get_uint_from_hex_str hex (must_get_bridge_dpid r)) _ dhcp.2 in
    made_of dpid.2 refl

pub prepare-IsRequested :
    (env : Env) (r : CreateNetworkRequest) (operation : String)
    → Yields env (λ _. Unit {0}) (prepare_network r operation) (λ op _. IsRequested r operation op)
unfolding prepare_network create_message
prepare-IsRequested env r operation = value_then get_config (λ d.
    value_then (io (ask (λ env. env.hex_to_decimal))) (λ hex.
      value_bind (value_lift (λ ns. ns.dynamic.made ≡ true) _ (new_network_state_made hex d r))
        (λ ns. value_then (io (lift (validate_add_ports ns))) (λ _.
          value_then (io (init_if_new operation d ns (get_stack_mirror_config d r))) (λ _.
            value_then (io (must_set_interface_mtu ns.bridge_name ns.mtu)) (λ _.
              value_pure (λ op _. IsRequested r operation op) _
                (λ s made. record { operation = refl; network_id = refl; made = made })))))))

-- How CreateNetwork ends in a state, after a start in another.
unfoldable pub IsAnswered :
    CreateNetworkRequest → Manager → Outcome (Result (Unit {0})) → Manager → Type 0
IsAnswered r s (returned (ok _)) t =
    (op : DovesnapOp) × IsRequested r "create" op
    × (t.queue ≡ s.queue ++ (op ∷ []))
    × (t.pending ≡ suc s.pending)
IsAnswered r s (returned (err _)) t = SameTraffic s t
IsAnswered r s (panicked _) t = ⊥
IsAnswered r s (exited _) t = SameTraffic s t
IsAnswered r s blocked t = t.queue ≡ s.queue

module _ (r : CreateNetworkRequest) (env : Env) (s t : Manager) (same : SameTraffic s t) where
  sent :
      (op : DovesnapOp) (b : Bool)
      → IsRequested r "create" op
      → let m : M (Unit {0}) =
          if b then modify (λ u. record u { queue = u.queue ++ (op ∷ []) }) else wait in
        let o = m env (record t { pending = suc t.pending }) in IsAnswered r s (as_error o.0) o.1
  unfolding IsAnswered modify wait
  sent op true k = (op, k, ap (λ q. q ++ (op ∷ [])) same.1, ap suc same.0)
  sent op false k = same.1

  answered :
      (o : Outcome DovesnapOp)
      → ((op : DovesnapOp) → o ≡ returned op → IsRequested r "create" op)
      → let u = continue o (λ op. wait_group_add >> send_message op) env t in
        IsAnswered r s (as_error u.0) u.1
  unfolding IsAnswered wait_group_add send_message gets modify
  answered (returned op) k = sent op _ (k op refl)
  answered (panicked m) k = same
  answered (exited m) k = same
  answered blocked k = same.1

-- CreateNetwork does not panic. Where it returns no error it has added one to the counter and put
-- one message behind those of the channel, which asks to create the network of the request
-- and has a state with its maps; where it returns an error, or ends the process, the counter
-- and the channel are as before; where it waits forever, the channel is.
pub create_network_answers :
    (r : CreateNetworkRequest) (env : Env) (s : Manager)
    → IsAnswered r s (create_network r env s).0 (create_network r env s).1
unfolding create_network re_or_create_network recovered
create_network_answers r env s =
    answered r env s (prepare_network r "create" env s).1
      ((keep_prepare traffic_laws r "create").after env s) (prepare_network r "create" env s).0
      (λ op. (prepare-IsRequested env r "create").value s op tt)
