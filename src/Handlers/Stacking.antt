-- ===== src/Handlers/Stacking.antt =====
-- createStackingBridge of ovs/driver.go, which NewDriver calls before the resource manager starts, and
-- the names that it takes from ovs/ovs_config.go.
use dovesnap.Prelude.{ℕ, String, true, false, List, [], ◌∷◌, str_eq, if◌then◌else◌}
use dovesnap.Prelude.Text.{concat}
use dovesnap.Outcome.{Result, ok, err}
use dovesnap.System.{Io, hostname, must_call, lift, ask, pure, panic, ◌>>=◌, ◌>>◌}
use dovesnap.Ports.{must_add_internal_port}
use dovesnap.Faucet.{must_set_faucet_config_file, stack_interface_yaml, merge_dp_interfaces_yaml}
use dovesnap.Bridge.{bridge_exists, create_bridge}
use dovesnap.Config.{must_get_uint_from_hex_str, must_get_stacking_interface}
use dovesnap.State.{DriverConfig}

pub record StackingPort : Type 0 where
  pub of_port : ℕ
  pub remote_dp : String
  pub remote_port : ℕ

unfoldable pub must_get_stack_dp_name : DriverConfig → String
must_get_stack_dp_name d = concat ("dovesnap" ∷ d.short_engine_id ∷ [])

-- The datapath's id and name.
unfoldable pub must_get_stack_dp : DriverConfig → String × String
must_get_stack_dp d = (concat ("0x0E0F00" ∷ d.short_engine_id ∷ []), must_get_stack_dp_name d)

-- The stack's root has a priority.
unfoldable pub stack_config : DriverConfig → String → String
stack_config d remote_dp =
    if str_eq d.stack_priority1 remote_dp then "stack: {priority: 1}," else ""

unfoldable pub remote_config : DriverConfig → String → StackingPort → String
remote_config d dp_name p = concat (
    p.remote_dp
    ∷ ": {"
    ∷ stack_config d p.remote_dp
    ∷ " interfaces: {"
    ∷ stack_interface_yaml p.remote_port dp_name p.of_port
    ∷ "}},"
    ∷ [])

-- A port for each stacking interface, in their order.
unfoldable pub add_stacking_ports : String → List String → Io (List StackingPort)
add_stacking_ports dp_name [] = pure []
add_stacking_ports dp_name (interface ∷ rest) = do
  parts ← lift (must_get_stacking_interface interface)
  added ← must_add_internal_port dp_name parts.2 0
  others ← add_stacking_ports dp_name rest
  pure (record { of_port = added.0; remote_dp = parts.0; remote_port = parts.1 } ∷ others)

unfoldable pub remote_configs : DriverConfig → String → List StackingPort → String
remote_configs d dp_name [] = ""
remote_configs d dp_name (p ∷ ps) =
    concat (remote_config d dp_name p ∷ remote_configs d dp_name ps ∷ [])

unfoldable pub local_interfaces : List StackingPort → String
local_interfaces [] = ""
local_interfaces (p ∷ ps) =
    concat (stack_interface_yaml p.of_port p.remote_dp p.remote_port ∷ local_interfaces ps ∷ [])

unfoldable pub stacking_yaml : DriverConfig → String → String → ℕ → List StackingPort → String
stacking_yaml d host dp_name dpid_uint ports = concat (
    "{dps: {"
    ∷ merge_dp_interfaces_yaml dp_name dpid_uint
        (concat ("Dovesnap Stacking Bridge for " ∷ host ∷ [])) (local_interfaces ports) false
    ∷ " "
    ∷ remote_configs d dp_name ports
    ∷ "}}"
    ∷ [])

-- A bridge that cannot be made is logged, and the creation goes on.
unfoldable pub make_stacking_bridge : DriverConfig → String → ℕ → Io (Result (Unit {0}))
make_stacking_bridge d host dpid_uint = do
  let dp = must_get_stack_dp d
  create_bridge dp.1 d.stack_default_controllers dp.0 "" true false ""
  ports ← add_stacking_ports dp.1 d.stacking_interfaces
  must_set_faucet_config_file (stacking_yaml d host dp.1 dpid_uint ports)
  pure (ok tt)

abbrev unless_there : Result String → Io (Result (Unit {0})) → Io (Result (Unit {0}))
unless_there (ok _) m = pure (ok tt)
unless_there (err _) m = m

unfoldable pub create_stacking_bridge : DriverConfig → Io (Result (Unit {0}))
create_stacking_bridge d = do
  host ← must_call hostname
  hex_to_decimal ← ask (λ env. env.hex_to_decimal)
  dpid_uint ← lift (must_get_uint_from_hex_str hex_to_decimal (must_get_stack_dp d).0)
  let create = (do
    exists ← bridge_exists (must_get_stack_dp d).1
    unless_there exists (make_stacking_bridge d host dpid_uint))
  let missing = panic "default OF controllers must be defined for stacking"
  if str_eq d.stack_default_controllers "" then missing else create
