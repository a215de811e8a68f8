-- ===== src/Restore/Sends.antt =====
-- What one round of restoreNetworks of ovs/driver.go sends.
use mathlib.Core.Path.{subst}
use dovesnap.Prelude.{
  suc, String, Bool, true, false, Option, none, List, [], ◌∷◌, ◌++◌, ◌≡◌, ◌≢◌, refl, sym, ap, ◌∙◌,
  ◌⊎◌, inl, inr, ltb, length, str_eq, if◌then◌else◌,
}
use dovesnap.Prelude.Map.{string_key}
use dovesnap.Outcome.{
  Outcome, returned, panicked, exited, blocked, Result, ok, err, >>=-eq-returned,
}
use dovesnap.System
use dovesnap.System.{Env, Io, Call, NetworkInspect, interface_flags, ask, lift}
use dovesnap.State.{NetworkState, StackMirrorConfig, DriverConfig, zero_network_state}
use dovesnap.Config.{must_get_uint_from_hex_str, get_str_option_from_resource}
use dovesnap.Config.Network.{
  resource_network_state, get_network_state_from_resource, recovered_state, inspected_state,
  must_get_bridge_name_from_resource, with_default_controller,
}
use dovesnap.Docker.{must_get_network_inspect_from_id}
use dovesnap.Links.{if_up, get_iface_addr, has_up_flag}
use dovesnap.Manager.{M, Manager, DovesnapOp, continue, io, gets, modify, get_config, ◌>>◌}
use dovesnap.Manager.Keeps.{Keeps, keep_bind, keep_gets, keep_io, keep_modify, keep_pure}
use dovesnap.Manager.Triples.{
  Yields, value_bind, value_then, value_pure, value_lift, split_returned,
}
use dovesnap.Channel.{send_message, wait_group_add, wait}
use dovesnap.Channel.Traffic.{SameTraffic, traffic_laws}
use dovesnap.Handlers.Create.{no_error}
use dovesnap.Handlers.KeepsNetwork.{keep_no_error}
use dovesnap.Plugin.Answers.{made_of}
use dovesnap.Restore.{
  by_address, restored_operation, restored_message, prepare_restored, restore_network,
}

-- No interface has the empty name.
abbrev pub IsNamed : Env → Type 0
IsNamed env = (h : List Call) → (m : String) × (env.answer h (interface_flags "") ≡ err m)

-- The state has its maps, or no bridge (the zero value, where reading the options has panicked).
abbrev IsRead : NetworkState → Type 0
IsRead ns = (ns.dynamic.made ≡ true) ⊎ (ns.bridge_name ≡ "")

resource_state_made :
    (hex : String → String) (engine : String) (r : NetworkInspect) (ns : NetworkState)
    → resource_network_state hex engine r ≡ returned ns
    → ns.dynamic.made ≡ true
unfolding resource_network_state inspected_state
resource_state_made hex engine r ns h =
    let dpid =
      >>=-eq-returned
        (must_get_uint_from_hex_str hex (get_str_option_from_resource r "ovs.bridge.dpid" "")) _
        h in
    let name = >>=-eq-returned (must_get_bridge_name_from_resource r) _ dpid.2 in
    made_of name.2 refl

recovered-IsRead :
    (o : Outcome NetworkState) (found : NetworkState × Option String)
    → ((ns : NetworkState) → o ≡ returned ns → ns.dynamic.made ≡ true)
    → recovered_state o ≡ returned found
    → IsRead found.0
recovered-IsRead (returned ns) found h e = let same = first e in inl (made_again same (h ns refl))
  where
    first :
        {a : NetworkState × Option String} {ns : NetworkState}
        → returned (ns, none) ≡ returned a
        → ns ≡ a.0
    first e = cc

    made_again : {x y : NetworkState} → x ≡ y → x.dynamic.made ≡ true → y.dynamic.made ≡ true
    made_again e h = cc
recovered-IsRead (panicked m) found h e = inr (unnamed e)
  where
    unnamed :
        {a : NetworkState × Option String}
        → returned (zero_network_state, none) ≡ returned a
        → a.0.bridge_name ≡ ""
    unnamed e = cc
recovered-IsRead (exited m) found h e = cc
recovered-IsRead blocked found h e = cc

inspected-IsRead :
    (hex : String → String) (r : NetworkInspect) (engine : String)
    (found : NetworkState × Option String)
    → get_network_state_from_resource hex r engine ≡ returned found
    → IsRead found.0
unfolding get_network_state_from_resource
inspected-IsRead hex r engine found =
    recovered-IsRead (resource_network_state hex engine r) found (resource_state_made hex engine r)

controller-IsRead :
    (d : DriverConfig) (ns : NetworkState) → IsRead ns → IsRead (with_default_controller d ns)
unfolding with_default_controller
controller-IsRead d ns h = go (str_eq ns.controller "")
  where
    go :
        (b : Bool)
        → IsRead (if b then record ns { controller = d.stack_default_controllers } else ns)
    go true = h
    go false = h

-- The operation of a message, by what the code finds of the bridge's interface; the calls are those after
-- it has been looked at.
pub data IsChosen (env : Env) (bridge_name operation : String) (calls : List Call) : Type 0 where
  down :
      (before : List Call)
      → if_up bridge_name env before ≡ (returned false, calls)
      → operation ≡ "recreatedownbridge"
      → IsChosen env bridge_name operation calls
  with_address :
      (before asked : List Call) (addr : String)
      → if_up bridge_name env before ≡ (returned true, asked)
      → get_iface_addr bridge_name env asked ≡ (returned (ok addr), calls)
      → operation ≡ "create"
      → IsChosen env bridge_name operation calls
  without_address :
      (before asked : List Call) (m : String)
      → if_up bridge_name env before ≡ (returned true, asked)
      → get_iface_addr bridge_name env asked ≡ (returned (err m), calls)
      → operation ≡ "recreatebadbridge"
      → IsChosen env bridge_name operation calls

same_text : {x y : String} → returned x ≡ returned y → x ≡ y
same_text e = cc

address_case :
    (env : Env) (b o : String) (before asked calls : List Call) (found : Outcome (Result String))
    → if_up b env before ≡ (returned true, asked)
    → get_iface_addr b env asked ≡ (found, calls)
    → (System.continue found (λ addr. System.pure (by_address addr)) env calls).0 ≡ returned o
    → IsChosen env b o (System.continue found (λ addr. System.pure (by_address addr)) env calls).1
address_case env b o before asked calls (returned (ok a)) up r e =
    with_address before asked a up r (sym (same_text e))
address_case env b o before asked calls (returned (err m)) up r e =
    without_address before asked m up r (sym (same_text e))
address_case env b o before asked calls (panicked m) up r e = cc
address_case env b o before asked calls (exited m) up r e = cc
address_case env b o before asked calls blocked up r e = cc

restored_operation-IsChosen :
    {X : Type 0} (env : Env) (b : String)
    → Yields env (λ _. X) (io (restored_operation b)) (λ o t. X × IsChosen env b o t.calls)
unfolding io restored_operation if_up
restored_operation-IsChosen env b = record {
  value = λ s o x e. (x, go s o (has_up_flag (env.answer s.calls (interface_flags b))) refl e);
}
  where
    chosen : Bool → Io String
    chosen up =
        if up
        then System.◌>>=◌ (get_iface_addr b) (λ addr. System.pure (by_address addr))
        else System.pure "recreatedownbridge"

    go :
        (s : Manager) (o : String) (up : Bool)
        → if_up b env s.calls ≡ (returned up, interface_flags b ∷ s.calls)
        → (chosen up env (interface_flags b ∷ s.calls)).0 ≡ returned o
        → IsChosen env b o (chosen up env (interface_flags b ∷ s.calls)).1
    go s o true h e =
        let asked = interface_flags b ∷ s.calls in
        let r = get_iface_addr b env asked in address_case env b o s.calls asked r.1 r.0 h refl e
    go s o false h e = down s.calls h (sym (same_text e))

-- What the message of a restored network is, by the calls after it has been made.
pub record IsRestored (env : Env) (id : String) (op : DovesnapOp) (calls : List Call) : Type 0 where
  pub network_id : op.network_id ≡ id
  pub operation : IsChosen env op.new_network_state.bridge_name op.operation calls
  pub maps : op.operation ≢ "recreatedownbridge" → op.new_network_state.dynamic.made ≡ true

nameless :
    (env : Env) (b : String) (before asked : List Call)
    → IsNamed env
    → b ≡ ""
    → if_up b env before ≢ (returned true, asked)
unfolding if_up
nameless env b before asked named z up = let m = named before in cc

named_if_up :
    (env : Env) (b o : String) (calls : List Call)
    → IsNamed env
    → IsChosen env b o calls
    → o ≢ "recreatedownbridge"
    → b ≢ ""
named_if_up env b o calls named (down before up e) other z = other e
named_if_up env b o calls named (with_address before asked a up r e) other z =
    nameless env b before asked named z up
named_if_up env b o calls named (without_address before asked m up r e) other z =
    nameless env b before asked named z up

made_if_up :
    (env : Env) (o : String) (ns : NetworkState) (calls : List Call)
    → IsNamed env
    → IsRead ns
    → IsChosen env ns.bridge_name o calls
    → o ≢ "recreatedownbridge"
    → ns.dynamic.made ≡ true
made_if_up env o ns calls named (inl made) chosen other = made
made_if_up env o ns calls named (inr unnamed) chosen other =
    elim (named_if_up env ns.bridge_name o calls named chosen other unnamed) [ ]

restored_message-IsRestored :
    (env : Env) (id o : String) (ns : NetworkState) (sc : StackMirrorConfig) (calls : List Call)
    → IsNamed env
    → IsRead ns
    → IsChosen env ns.bridge_name o calls
    → IsRestored env id (restored_message id o ns sc) calls
unfolding restored_message
restored_message-IsRestored env id o ns sc calls named read chosen = record {
  network_id = refl;
  operation = chosen;
  maps = made_if_up env o ns calls named read chosen;
}

prepare_restored-IsRestored :
    (env : Env) (id : String)
    → IsNamed env
    → Yields env (λ _. Unit {0}) (prepare_restored id) (λ op t. IsRestored env id op t.calls)
unfolding prepare_restored
prepare_restored-IsRestored env id named =
    value_then (io (must_get_network_inspect_from_id id)) (λ r. value_then get_config (λ d.
      value_then (io (ask (λ env. env.hex_to_decimal))) (λ hex.
        value_bind
          (value_lift (λ found. IsRead found.0) _ (inspected-IsRead hex r d.short_engine_id))
          (λ found. value_then (no_error found.1) (λ _. value_then (modify _) (λ _.
            value_bind
              (restored_operation-IsChosen env (with_default_controller d found.0).bridge_name)
              (λ o.
                value_pure (λ op t. IsRestored env id op t.calls) _
                  (λ t h.
                    restored_message-IsRestored env id o (with_default_controller d found.0) _
                      t.calls named (controller-IsRead d found.0 h.0) h.1))))))))

traffic_prepared : (id : String) → Keeps SameTraffic (prepare_restored id)
unfolding prepare_restored
traffic_prepared id = keep_bind traffic_laws (keep_io traffic_laws _) (λ r.
    keep_bind traffic_laws (keep_gets traffic_laws _) (λ d.
      keep_bind traffic_laws (keep_io traffic_laws _) (λ hex.
        keep_bind traffic_laws (keep_io traffic_laws _) (λ found.
          keep_bind traffic_laws (keep_no_error traffic_laws found.1) (λ _.
            keep_bind traffic_laws (keep_modify traffic_laws _ (λ s. (refl, refl))) (λ _.
              keep_bind traffic_laws (keep_io traffic_laws _) (λ o. keep_pure traffic_laws _)))))))

sent :
    (op : DovesnapOp) (env : Env) (t : Manager) {a : Unit {0}}
    → ((wait_group_add >> send_message op) env t).0 ≡ returned a
    → (((wait_group_add >> send_message op) env t).1.calls ≡ t.calls)
      × (((wait_group_add >> send_message op) env t).1.queue ≡ t.queue ++ (op ∷ []))
      × (((wait_group_add >> send_message op) env t).1.pending ≡ suc t.pending)
unfolding wait_group_add send_message gets modify wait
sent op env t e = go (ltb (length t.queue) 64) e
  where
    go :
        (b : Bool) {a : Unit {0}}
        → let m : M (Unit {0}) =
            if b then modify (λ u. record u { queue = u.queue ++ (op ∷ []) }) else wait in
          let u = record t { pending = suc t.pending } in
          (m env u).0 ≡ returned a
          → ((m env u).1.calls ≡ t.calls)
            × ((m env u).1.queue ≡ t.queue ++ (op ∷ []))
            × ((m env u).1.pending ≡ suc t.pending)
    go true e = (refl, refl, refl)
    go false e = cc

-- A round of restoreNetworks that returns has counted and sent one message for its network, by what it has
-- found last of the bridge's interface: "recreatedownbridge" where it is down, "create" where it is
-- up and has an address, "recreatebadbridge" where it is up without one, and in the last two cases
-- with a state that has its maps; if no interface has the empty name.
pub restore_network_sends :
    (env : Env) (id : String) (s : Manager)
    → IsNamed env
    → (restore_network id env s).0 ≡ returned tt
    → (op : DovesnapOp) × IsRestored env id op (restore_network id env s).1.calls
      × ((restore_network id env s).1.queue ≡ s.queue ++ (op ∷ []))
      × ((restore_network id env s).1.pending ≡ suc s.pending)
unfolding restore_network
restore_network_sends env id s named e =
    let t = (prepare_restored id env s).1 in
    let same = (traffic_prepared id).after env s in
    let first =
      split_returned (prepare_restored id) (λ op. wait_group_add >> send_message op) env s e in
    let op = first.0 in
    let put = sent op env t first.2 in
    let run = restored_run id env s op first.1 in
    (
      op,
      subst (IsRestored env id op) (sym (ap (λ r. r.calls) run ∙ put.0))
          ((prepare_restored-IsRestored env id named).value s op tt first.1),
      ap (λ r. r.queue) run ∙ put.1 ∙ ap (λ q. q ++ (op ∷ [])) same.1,
      ap (λ r. r.pending) run ∙ put.2 ∙ ap suc same.0,
    )
  where
    after_value :
        (o : Outcome DovesnapOp) (env : Env) (t : Manager) (op : DovesnapOp)
        → o ≡ returned op
        → (continue o (λ op. wait_group_add >> send_message op) env t).1
          ≡ ((wait_group_add >> send_message op) env t).1
    after_value o env t op h = cc

    restored_run :
        (id : String) (env : Env) (s : Manager) (op : DovesnapOp)
        → (prepare_restored id env s).0 ≡ returned op
        → (restore_network id env s).1
          ≡ ((wait_group_add >> send_message op) env (prepare_restored id env s).1).1
    restored_run id env s op h =
        after_value (prepare_restored id env s).0 env (prepare_restored id env s).1 op h
