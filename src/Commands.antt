-- ===== src/Commands.antt =====
-- ovs/ovsdb.go: the Open vSwitch command line tools; ovs/ovs_iptables.go: NAT and port maps.
use dovesnap.Prelude.{String, List, [], ◌∷◌, str_eq, if◌then◌else◌}
use dovesnap.Prelude.Text.{concat, trim_newline}
use dovesnap.Outcome.{Result, ok, err}
use dovesnap.System.{Io, exec, iptables, call, or_panic, pure, ◌>>=◌, ◌>>◌}

abbrev pub ovs_ofctl_path : String
ovs_ofctl_path = "/usr/bin/ovs-ofctl"

abbrev pub ovs_vsctl_path : String
ovs_vsctl_path = "/usr/bin/ovs-vsctl"

abbrev pub ovs_vsctl_db_path : String
ovs_vsctl_db_path = "unix:/var/run/openvswitch/db.sock"

-- The text that is returned beside an error is dropped: no caller reads it.
abbrev pub trimmed : Result String → Result String
trimmed (ok out) = ok (trim_newline out)
trimmed (err m) = err m

unfoldable pub run_cmd : String → List String → Io (Result String)
run_cmd cmd args = do r ← call (exec cmd args); pure (trimmed r)

unfoldable pub vs_ctl : List String → Io (Result String)
unfolding run_cmd concat
vs_ctl args = run_cmd ovs_vsctl_path (concat ("--db=" ∷ ovs_vsctl_db_path ∷ []) ∷ args)

unfoldable pub must_vs_ctl : List String → Io String
unfolding vs_ctl
must_vs_ctl args = do r ← vs_ctl args; or_panic r

unfoldable pub of_ctl : List String → Io (Result String)
unfolding run_cmd
of_ctl args = run_cmd ovs_ofctl_path args

unfoldable pub must_of_ctl : List String → Io String
unfolding of_ctl
must_of_ctl args = do r ← of_ctl args; or_panic r

unfoldable pub must_iptables_raw : List String → Io String
must_iptables_raw args = do r ← call (iptables args); or_panic r

abbrev nat_rule : Result String → Io (Result String)
nat_rule (err m) = pure (err m)
nat_rule (ok output) =
    if str_eq output ""
    then call (iptables ("-P" ∷ "FORWARD" ∷ "ACCEPT" ∷ []))
    else pure (err output)

unfoldable pub nat_out : String → String → Io (Result String)
nat_out cidr op = do
  r ← call (iptables (op ∷ "POSTROUTING" ∷ "-t" ∷ "nat" ∷ "-s" ∷ cidr ∷ "-j" ∷ "MASQUERADE" ∷ []))
  nat_rule r

-- The four rules of a port map, in the order of the calls.
unfoldable pub port_map_rules :
    String → String → String → String → String → String → String → List (List String)
unfolding concat
port_map_rules op bridge_name ip_proto gateway_ip host_ip host_port port =
    let dst = concat (host_ip ∷ ":" ∷ port ∷ []) in
    ("-t" ∷ "nat" ∷ op ∷ "DOCKER" ∷ "-p" ∷ ip_proto ∷ "-d" ∷ gateway_ip ∷ "--dport" ∷ host_port
      ∷ "-j" ∷ "DNAT" ∷ "--to-destination" ∷ dst ∷ [])
    ∷ ("-t" ∷ "nat" ∷ op ∷ "OUTPUT" ∷ "-p" ∷ ip_proto ∷ "-d" ∷ gateway_ip ∷ "--dport" ∷ host_port
        ∷ "-j" ∷ "DNAT" ∷ "--to-destination" ∷ dst ∷ [])
    ∷ ("-t" ∷ "nat" ∷ op ∷ "POSTROUTING" ∷ "-p" ∷ ip_proto ∷ "-s" ∷ host_ip ∷ "-d" ∷ host_ip
        ∷ "--dport" ∷ port ∷ "-j" ∷ "MASQUERADE" ∷ [])
    ∷ ("-t" ∷ "filter" ∷ op ∷ "DOCKER" ∷ "!" ∷ "-i" ∷ bridge_name ∷ "-o" ∷ bridge_name ∷ "-p"
        ∷ "tcp" ∷ "-d" ∷ host_ip ∷ "--dport" ∷ port ∷ "-j" ∷ "ACCEPT" ∷ [])
    ∷ []

unfoldable pub must_rules : List (List String) → Io (Unit {0})
unfolding must_iptables_raw
must_rules [] = pure tt
must_rules (r ∷ rs) = do must_iptables_raw r; must_rules rs

unfoldable pub must_port_map :
    String → String → String → String → String → String → String → Io (Unit {0})
unfolding must_rules port_map_rules
must_port_map op bridge_name ip_proto gateway_ip host_ip host_port port =
    must_rules (port_map_rules op bridge_name ip_proto gateway_ip host_ip host_port port)

unfoldable pub must_add_gateway_port_map :
    String → String → String → String → String → String → Io (Unit {0})
unfolding must_port_map
must_add_gateway_port_map = must_port_map "-A"

unfoldable pub must_delete_gateway_port_map :
    String → String → String → String → String → String → Io (Unit {0})
unfolding must_port_map
must_delete_gateway_port_map = must_port_map "-D"
