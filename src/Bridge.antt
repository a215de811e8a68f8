-- ===== src/Bridge.antt =====
-- ovs/ovs_bridge.go: making, configuring and deleting bridges.
pub mod Cleanup
use dovesnap.Prelude.{
  ℕ, zero, suc, ◌+◌, String, Bool, true, false, Option, none, some, List, [], ◌∷◌, ◌++◌, ◌≡◌, refl,
  str_eq, ltb, ◌||◌, if◌then◌else◌,
}
use dovesnap.Prelude.Map.{Map, keys}
use dovesnap.Prelude.Text.{concat, decimal, split}
use dovesnap.Outcome.{Result, ok, err}
use dovesnap.System.{
  Io, Call, sleep, call, lift, or_panic, pure, panic, fatal, recover, skip, ◌>>=◌, ◌>>◌,
}
use dovesnap.Commands.{vs_ctl, must_vs_ctl, must_of_ctl, nat_out}
use dovesnap.Ports.{get_of_port, ofport_request}
use dovesnap.AddPorts.{only_ports, no_ports, parse_add_ports}
use dovesnap.Links.{get_iface_addr, set_interface_ip, interface_up}
use dovesnap.State.{NetworkState}
use dovesnap.Config.{mode_nat, mode_routed}

unfoldable pub show : Io (Result String)
show = vs_ctl ("show" ∷ [])

abbrev pub ovs_startup_retries : ℕ
ovs_startup_retries = 5

-- The loop of `waitForOvs`: it breaks off at the first answer.
unfoldable pub wait_rounds : ℕ → Io (Unit {0})
wait_rounds zero = skip
wait_rounds (suc left) = do
  r ← show
  elim r [ ok _ ↦ skip | err _ ↦ call (sleep 5) >>= λ _. wait_rounds left ]

abbrev connected : Result String → Io (Unit {0})
connected (ok _) = skip
connected (err _) = panic "could not connect to open vswitch"

unfoldable pub wait_for_ovs : Io (Unit {0})
wait_for_ovs = do wait_rounds ovs_startup_retries; r ← show; connected r

unfoldable pub bridge_exists : String → Io (Result String)
bridge_exists bridge_name = vs_ctl ("br-exists" ∷ bridge_name ∷ [])

unfoldable pub add_bridge : String → Io (Result String)
add_bridge bridge_name = do
  vs_ctl ("--if-exists" ∷ "del-br" ∷ bridge_name ∷ [])
  vs_ctl ("add-br" ∷ bridge_name ∷ "--" ∷ "set" ∷ "Bridge" ∷ bridge_name ∷ "stp_enable=false" ∷ [])

unfoldable pub add_bridge_exists : String → Io (Result String)
add_bridge_exists bridge_name = vs_ctl (
    "--may-exist" ∷ "add-br" ∷ bridge_name ∷ "--" ∷ "set" ∷ "Bridge" ∷ bridge_name
    ∷ "stp_enable=false" ∷ [])

unfoldable pub must_delete_bridge : String → Io String
must_delete_bridge bridge_name = must_vs_ctl ("del-br" ∷ bridge_name ∷ [])

unfoldable pub make_mirror_bridge : String → ℕ → Io String
make_mirror_bridge bridge_name mirror_bridge_out_port = do
  must_of_ctl ("del-flows" ∷ bridge_name ∷ [])
  must_of_ctl ("add-flow" ∷ bridge_name ∷ "priority=0,actions=drop" ∷ [])
  must_of_ctl (
      "add-flow"
      ∷ bridge_name
      ∷ concat ("priority=1,actions=output:" ∷ decimal mirror_bridge_out_port ∷ [])
      ∷ [])

-- The result is named, so that the deferred recover() sets the error that is returned.
unfoldable pub make_loopback_bridge : String → Io (Result String)
make_loopback_bridge bridge_name = recover (do
  must_of_ctl ("del-flows" ∷ bridge_name ∷ [])
  must_of_ctl ("add-flow" ∷ bridge_name ∷ "priority=0,actions=drop" ∷ [])
  must_of_ctl ("add-flow" ∷ bridge_name ∷ "priority=1,actions=output:in_port" ∷ []))

abbrev when_set : Bool → List (List String) → List (List String)
when_set true cmds = cmds
when_set false cmds = []

abbrev is_set : String → Bool
is_set s = if str_eq s "" then false else true

-- One round of the loop that adds ports: a number that is not 0 is asked for.
unfoldable pub add_port_cmd : String → String × ℕ → List String
add_port_cmd bridge_name (add_port, number) =
    if ltb 0 number
    then "add-port"
      ∷ bridge_name
      ∷ add_port
      ∷ "--"
      ∷ "set"
      ∷ "Interface"
      ∷ add_port
      ∷ ofport_request number
      ∷ []
    else "add-port" ∷ bridge_name ∷ add_port ∷ []

unfoldable pub add_port_cmds : String → Map String ℕ → List (List String)
add_port_cmds bridge_name [] = []
add_port_cmds bridge_name (p ∷ ps) = add_port_cmd bridge_name p ∷ add_port_cmds bridge_name ps

-- The commands of `ovsConfigCmds`, in the order in which they run.
unfoldable pub ovs_config_cmds :
    String → String → String → Map String ℕ → Bool → String → List (List String)
ovs_config_cmds bridge_name controller dpid add_ports userspace ovs_local_mac =
    when_set userspace (("set" ∷ "bridge" ∷ bridge_name ∷ "datapath_type=netdev" ∷ []) ∷ [])
    ++ (when_set (is_set ovs_local_mac) (
          ("set"
            ∷ "bridge"
            ∷ bridge_name
            ∷ concat ("other-config:hwaddr=\"" ∷ ovs_local_mac ∷ "\"" ∷ [])
            ∷ [])
          ∷ [])
        ++ (when_set (is_set dpid) (
              ("set"
                ∷ "bridge"
                ∷ bridge_name
                ∷ concat ("other-config:datapath-id=" ∷ dpid ∷ [])
                ∷ [])
              ∷ [])
            ++ (when_set (is_set controller) (
                  ("set" ∷ "bridge" ∷ bridge_name ∷ "fail-mode=secure" ∷ [])
                  ∷ ("set-controller" ∷ bridge_name ∷ split "," controller)
                  ∷ [])
                ++ add_port_cmds bridge_name add_ports)))

-- `VsCtl("del-br", bridgeName); return err`
abbrev pub give_up : String → String → Io (Result (Unit {0}))
give_up bridge_name m = do vs_ctl ("del-br" ∷ bridge_name ∷ []); pure (err m)

-- The configuration commands; the first that fails deletes the bridge and ends the creation.
unfoldable pub run_config : String → List (List String) → Io (Result (Unit {0}))
run_config bridge_name [] = pure (ok tt)
run_config bridge_name (cmd ∷ cmds) = do
  r ← vs_ctl cmd
  elim r [ ok _ ↦ run_config bridge_name cmds | err m ↦ give_up bridge_name m ]

unfoldable pub check_ports : String → List String → Io (Result (Unit {0}))
check_ports bridge_name [] = pure (ok tt)
check_ports bridge_name (add_port ∷ rest) = do
  r ← get_of_port add_port
  elim r [ ok _ ↦ check_ports bridge_name rest | err m ↦ give_up bridge_name m ]

unfoldable pub del_default_flows : String → String → Io (Unit {0})
del_default_flows bridge_name controller =
    let delete = must_of_ctl ("del-flows" ∷ bridge_name ∷ []) >> skip in
    if is_set controller then delete else skip

abbrev enabled : String → Result String → Io (Result (Unit {0}))
enabled bridge_name (ok _) = pure (ok tt)
enabled bridge_name (err m) = give_up bridge_name m

-- `if err != nil { return err }`
abbrev pub and_then {ℓ} : {A : Type ℓ} → Result A → Io (Result (Unit {0})) → Io (Result (Unit {0}))
and_then (ok _) rest = rest
and_then (err m) rest = pure (err m)

unfoldable pub create_bridge :
    String → String → String → String → Bool → Bool → String → Io (Result (Unit {0}))
create_bridge bridge_name controller dpid add_ports exists userspace ovs_local_mac = do
  added ← (if exists then add_bridge_exists bridge_name else add_bridge bridge_name)
  and_then added (do
    found ← lift (parse_add_ports only_ports add_ports no_ports)
    configured ←
        run_config bridge_name
          (ovs_config_cmds bridge_name controller dpid found.ports userspace ovs_local_mac)
    and_then configured (do
      checked ← check_ports bridge_name (keys found.ports)
      and_then checked (do
        del_default_flows bridge_name controller
        up ← interface_up bridge_name
        enabled bridge_name up)))

abbrev nat_set : Result String → Io (Result (Unit {0}))
nat_set (ok _) = pure (ok tt)
nat_set (err m) = fatal "Could not set NAT rules for bridge"

abbrev address_checked : NetworkState → String → Result String → Io (Result (Unit {0}))
address_checked ns gateway_ip (err m) = fatal "No IP address found on bridge"
address_checked ns gateway_ip (ok addr) =
    let nat = nat_out gateway_ip "-I" >>= nat_set in
    if str_eq ns.mode mode_nat then nat else pure (ok tt)

unfoldable pub gateway_address : NetworkState → String
gateway_address ns = concat (ns.gateway ∷ "/" ∷ ns.gateway_mask ∷ [])

-- The second half of `initBridge`: the gateway's address and NAT.
unfoldable pub init_gateway : NetworkState → Io (Result (Unit {0}))
init_gateway ns =
    let assign = (do
      set_interface_ip ns.bridge_name (gateway_address ns)
      addr ← get_iface_addr ns.bridge_name
      address_checked ns (gateway_address ns) addr) in
    if str_eq ns.mode mode_nat || str_eq ns.mode mode_routed then assign else pure (ok tt)

unfoldable pub init_bridge :
    NetworkState → String → String → String → Bool → String → Io (Result (Unit {0}))
init_bridge ns controller dpid add_ports userspace ovs_local_mac = do
  created ← create_bridge ns.bridge_name controller dpid add_ports false userspace ovs_local_mac
  and_then created (init_gateway ns)
