-- ===== src/Start.antt =====
-- The start of the program: the flags of main.go and NewDriver of ovs/driver.go, up to the start of the
-- resource manager. Restore has what follows.
pub mod Checks
use dovesnap.Prelude.{
  ℕ, String, Bool, true, false, not, ◌&&◌, List, [], ◌∷◌, str_eq, ◌==◌, length, if◌then◌else◌,
}
use dovesnap.Prelude.Text.{concat, split, decimal}
use dovesnap.Outcome.{Outcome, returned, panicked}
use dovesnap.System.{Io, parse_cidr, must_call, or_panic, lift, pure, skip, ◌>>=◌, ◌>>◌}
use dovesnap.Links.{ensure_dir_exists, net_ns_path}
use dovesnap.Docker.{must_get_docker_client, must_get_short_engine_id}
use dovesnap.Faucet.Client.{must_get_grpc_client}
use dovesnap.Bridge.{wait_for_ovs}
use dovesnap.State.{DriverConfig, using_mirror_bridge, using_stacking, using_stack_mirroring}
use dovesnap.Handlers.Bridges.{create_mirror_bridge, create_loopback_bridge}
use dovesnap.Handlers.Stacking.{create_stacking_bridge, must_get_stack_dp_name}

pub record Flags : Type 0 where
  pub client_name : String
  pub server_name : String
  pub server_port : ℕ
  pub key_dir : String
  pub conn_retries : ℕ
  pub stack_priority1 : String
  pub stacking_interfaces : String
  pub stack_mirror_interface : String
  pub default_controllers : String
  pub mirror_bridge_in : String
  pub mirror_bridge_out : String
  pub status_port : ℕ
  pub status_auth_ips : String

abbrev pub default_flags : Flags
default_flags = record {
  client_name = "faucetconfrpc";
  server_name = "localhost";
  server_port = 59999;
  key_dir = "/faucetconfrpc";
  conn_retries = 5;
  stack_priority1 = "";
  stacking_interfaces = "";
  stack_mirror_interface = "";
  default_controllers = "";
  mirror_bridge_in = "";
  mirror_bridge_out = "";
  status_port = 9401;
  status_auth_ips = "127.0.0.0/8,::1/128";
}

-- "[mirrordpname:mirrorport]", or nothing.
unfoldable pub checked_mirror_interface : Flags → Outcome (List String)
checked_mirror_interface f =
    let parts = split ":" f.stack_mirror_interface in
    if not (str_eq f.stack_mirror_interface "") && not (length parts == 2)
    then panicked
        (concat ("invalid stack mirror interface config: " ∷ f.stack_mirror_interface ∷ []))
    else returned parts

abbrev pub ovs_dovesnap_prefix : String
ovs_dovesnap_prefix = "ods"

unfoldable pub must_get_loopback_br_name : DriverConfig → String
must_get_loopback_br_name d = concat (ovs_dovesnap_prefix ∷ "lb" ∷ d.short_engine_id ∷ [])

unfoldable pub must_get_mirror_br_name : DriverConfig → String
must_get_mirror_br_name d = concat (ovs_dovesnap_prefix ∷ "mir" ∷ d.short_engine_id ∷ [])

-- The constructor's literal.
unfoldable pub given_config : Flags → List String → DriverConfig
given_config f stack_mirror_interface = record {
  stack_priority1 = f.stack_priority1;
  stacking_interfaces = split "," f.stacking_interfaces;
  stack_mirror_interface = stack_mirror_interface;
  stack_default_controllers = f.default_controllers;
  mirror_bridge_in = f.mirror_bridge_in;
  mirror_bridge_out = f.mirror_bridge_out;
  short_engine_id = "";
  mirror_bridge_name = "";
  loopback_bridge_name = "";
  stack_dp_name = "";
}

-- The fields that follow from the engine's id.
unfoldable pub named_config : String → DriverConfig → DriverConfig
named_config short_engine_id given =
    let d : DriverConfig = record given { short_engine_id = short_engine_id } in
    record d {
      mirror_bridge_name = must_get_mirror_br_name d;
      loopback_bridge_name = must_get_loopback_br_name d;
      stack_dp_name = must_get_stack_dp_name d;
    }

-- `for _, authIP := range strings.Split(flagStatusAuthIPs, ",")`
unfoldable pub auth_ips : List String → Io (List String)
auth_ips [] = pure []
auth_ips (ip ∷ ips) = do
  ipnet ← must_call (parse_cidr ip)
  others ← auth_ips ips
  pure (ipnet ∷ others)

-- The bridges of the driver itself.
unfoldable pub create_bridges : DriverConfig → Io (Unit {0})
create_bridges d =
    let loopback = create_loopback_bridge d >>= or_panic in
    let stacking =
      create_stacking_bridge d
      >>= or_panic
      >> (if using_stack_mirroring d then loopback else skip) in
    (if using_mirror_bridge d then create_mirror_bridge d else skip)
    >> (if using_stacking d then stacking else skip)

unfoldable pub new_driver : Flags → Io DriverConfig
new_driver f = do
  ensure_dir_exists net_ns_path
  stack_mirror_interface ← lift (checked_mirror_interface f)
  auth_ips (split "," f.status_auth_ips)
  must_get_docker_client
  short_engine_id ← must_get_short_engine_id
  let d = named_config short_engine_id (given_config f stack_mirror_interface)
  must_get_grpc_client f.client_name f.server_name f.server_port f.key_dir f.conn_retries
  wait_for_ovs
  create_bridges d
  pure d
