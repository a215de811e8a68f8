-- ===== src/Handlers/Bridges.antt =====
-- Bridges and the ports between them, as the driver's configuration wants them: InitBridge,
-- mustDeleteBridgeAndPorts and createMirrorBridge of ovs/driver.go.
use dovesnap.Prelude.{ℕ, String, Bool, true, false, [], ◌∷◌, str_eq, if◌then◌else◌}
use dovesnap.Prelude.Text.{concat, decimal, join}
use dovesnap.Outcome.{Result, ok, err}
use dovesnap.System.{Io, lift, or_panic, pure, skip, ◌>>=◌, ◌>>◌}
use dovesnap.Commands.{must_of_ctl}
use dovesnap.Naming.{patch_name}
use dovesnap.Ports.{must_add_patch_port, must_delete_patch_port, must_get_of_port}
use dovesnap.Bridge.{
  bridge_exists, create_bridge, add_bridge_exists, make_mirror_bridge, make_loopback_bridge,
  must_delete_bridge, init_bridge, and_then,
}
use dovesnap.State.{
  NetworkState, StackMirrorConfig, DriverConfig, using_mirror_bridge, using_stacking,
  using_stack_mirroring,
}

unfoldable pub create_loopback_bridge : DriverConfig → Io (Result (Unit {0}))
create_loopback_bridge d = do
  added ← add_bridge_exists d.loopback_bridge_name
  and_then added
      (do made ← make_loopback_bridge d.loopback_bridge_name; and_then made (pure (ok tt)))

-- The output interface, and the input interface behind it where there is one.
unfoldable pub mirror_ports : DriverConfig → String
mirror_ports d =
    if str_eq d.mirror_bridge_in ""
    then d.mirror_bridge_out
    else concat (d.mirror_bridge_out ∷ "," ∷ d.mirror_bridge_in ∷ [])

abbrev make_if_missing : DriverConfig → Result String → Io (Unit {0})
make_if_missing d (ok _) = skip
make_if_missing d (err _) = do
  created ← create_bridge d.mirror_bridge_name "" "" (mirror_ports d) true false ""
  or_panic created
  port ← must_get_of_port d.mirror_bridge_out
  make_mirror_bridge d.mirror_bridge_name port
  skip

unfoldable pub create_mirror_bridge : DriverConfig → Io (Unit {0})
create_mirror_bridge d = do exists ← bridge_exists d.mirror_bridge_name; make_if_missing d exists

-- The two lists of ports that are not empty, with a comma between.
unfoldable pub all_added_ports : NetworkState → String
all_added_ports ns =
    if str_eq ns.add_ports ""
    then ns.add_copro_ports
    else if str_eq ns.add_copro_ports ""
    then ns.add_ports
    else join "," (ns.add_ports ∷ ns.add_copro_ports ∷ [])

unfoldable pub mirror_flow : ℕ → ℕ → String
mirror_flow mirror_of_port bridge_vlan = concat (
    "priority=2,in_port="
    ∷ decimal mirror_of_port
    ∷ ",dl_vlan=0xffff,actions=mod_vlan_vid:"
    ∷ decimal bridge_vlan
    ∷ ",output:1"
    ∷ [])

unfoldable pub init_mirror_port : DriverConfig → NetworkState → StackMirrorConfig → Io (Unit {0})
init_mirror_port d ns sc = do
  must_add_patch_port ns.bridge_name d.mirror_bridge_name sc.lb_port 0
  mirror_port_name ← lift (patch_name d.mirror_bridge_name ns.bridge_name)
  mirror_of_port ← must_get_of_port mirror_port_name
  must_of_ctl ("add-flow" ∷ d.mirror_bridge_name ∷ mirror_flow mirror_of_port ns.bridge_vlan ∷ [])
  skip

abbrev if_using : Bool → Io (Unit {0}) → Io (Unit {0})
if_using b m = if b then m else skip

-- `InitBridge`: the bridge and its patch ports to the mirror, stacking and loopback bridges.
unfoldable pub init_bridge_and_ports :
    DriverConfig → NetworkState → StackMirrorConfig → Io (Unit {0})
init_bridge_and_ports d ns sc = do
  made ←
      init_bridge ns ns.controller ns.bridge_dpid (all_added_ports ns) ns.userspace ns.ovs_local_mac
  or_panic made
  if_using (using_mirror_bridge d) (init_mirror_port d ns sc)
  if_using (using_stacking d) (must_add_patch_port ns.bridge_name d.stack_dp_name 0 0 >> skip)
  if_using (using_stack_mirroring d)
      (must_add_patch_port ns.bridge_name d.loopback_bridge_name sc.lb_port 0 >> skip)

unfoldable pub must_delete_bridge_and_ports : DriverConfig → String → Io (Unit {0})
must_delete_bridge_and_ports d bridge_name = do
  if_using (using_mirror_bridge d) (must_delete_patch_port bridge_name d.mirror_bridge_name)
  if_using (using_stacking d) (do
    must_delete_patch_port bridge_name d.stack_dp_name
    if_using (using_stack_mirroring d) (must_delete_patch_port bridge_name d.loopback_bridge_name))
  must_delete_bridge bridge_name
  skip
