-- ===== src/Handlers/PortRules.antt =====
-- The rules of the port maps that mustHandleJoinContainer adds and mustHandleLeaveContainer deletes.
use dovesnap.Prelude.{String, List, [], ◌∷◌, ◌++◌, ◌≡◌}
use dovesnap.Prelude.Text.{concat}
use dovesnap.Outcome
use dovesnap.Outcome.{Outcome, returned, panicked, exited, blocked, ok}
use dovesnap.System.{Env, Call, iptables, EndpointSettings}
use dovesnap.State.{PortMap}
use dovesnap.Manager.{Manager}
use dovesnap.Handlers.PortMaps.{must_get_port_map}

-- Every iptables command succeeds, whatever it prints.
abbrev pub IsAccepting : Env → Type 0
IsAccepting env =
    (h : List Call) (args : List String)
    → (output : String) × (env.answer h (iptables args) ≡ ok output)

-- A rule: its table, and what follows the operation.
abbrev pub Rule : Type 0
Rule = String × List String

abbrev pub arguments : String → Rule → List String
arguments op rule = "-t" ∷ rule.0 ∷ op ∷ rule.1

-- The calls after a command for each of the rules in turn, with "-A" to add one and "-D" to delete one.
unfoldable pub called : String → List Rule → List Call → List Call
called op [] h = h
called op (rule ∷ rules) h = called op rules (iptables (arguments op rule) ∷ h)

-- The four rules of a port map: of the DOCKER, OUTPUT, POSTROUTING and filter's DOCKER chains.
unfoldable pub rules_of_one : String → EndpointSettings → String × (String × String) → List Rule
rules_of_one bridge_name net (host_port, (port, ip_proto)) =
    let to_container =
      "-p"
      ∷ ip_proto
      ∷ "-d"
      ∷ net.gateway
      ∷ "--dport"
      ∷ host_port
      ∷ "-j"
      ∷ "DNAT"
      ∷ "--to-destination"
      ∷ concat (net.ip_address ∷ ":" ∷ port ∷ [])
      ∷ [] in
    ("nat", "DOCKER" ∷ to_container)
    ∷ ("nat", "OUTPUT" ∷ to_container)
    ∷ (
      "nat",
      "POSTROUTING" ∷ "-p" ∷ ip_proto ∷ "-s" ∷ net.ip_address ∷ "-d" ∷ net.ip_address ∷ "--dport"
          ∷ port ∷ "-j" ∷ "MASQUERADE" ∷ [],
    )
    ∷ (
      "filter",
      "DOCKER" ∷ "!" ∷ "-i" ∷ bridge_name ∷ "-o" ∷ bridge_name ∷ "-p" ∷ "tcp" ∷ "-d"
          ∷ net.ip_address ∷ "--dport" ∷ port ∷ "-j" ∷ "ACCEPT" ∷ [],
    )
    ∷ []

abbrev pub rules_before :
    String → EndpointSettings → Outcome (String × (String × String)) → List Rule → List Rule
rules_before b net (returned p) rest = rules_of_one b net p ++ rest
rules_before b net (panicked _) rest = []
rules_before b net (exited _) rest = []
rules_before b net blocked rest = []

-- The rules of port maps, up to the first that cannot be read, and the outcome of reading them.
unfoldable pub readable_rules : String → EndpointSettings → List PortMap → List Rule
readable_rules b net [] = []
readable_rules b net (m ∷ ms) = rules_before b net (must_get_port_map m) (readable_rules b net ms)

unfoldable pub reading : List PortMap → Outcome (Unit {0})
reading [] = returned tt
reading (m ∷ ms) = Outcome.◌>>◌ (must_get_port_map m) (reading ms)

module _ (env : Env) (accepts : IsAccepting env) where
  -- How the loop over port maps ends: with the calls for the rules, and else the state as it was.
  abbrev ended :
      String → String → EndpointSettings → List PortMap → Manager → Outcome (Unit {0}) × Manager
  ended op b net ms s =
      (reading ms, record s { calls = called op (readable_rules b net ms) s.calls })
