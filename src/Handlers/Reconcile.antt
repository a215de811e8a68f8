-- ===== src/Handlers/Reconcile.antt =====
-- reconcileOvs and reconcileDhcpIp of ovs/driver.go: ports that were added to or removed from a bridge
-- behind the program's back, and the addresses that DHCP gave. A loop over a Go map takes the order
-- of the association list. Nothing recovers from a panic here.
use Prim.Native.String.{[], ◌∷◌}
use dovesnap.Prelude.{
  ℕ, String, Char, code, Bool, true, false, Option, none, some, List, ◌&&◌, ◌||◌, ◌==◌, ◌≡◌, refl,
  str_eq, if◌then◌else◌,
}
use dovesnap.Prelude.Map.{Map, string_key, nat_key, lookup, insert, delete, has, keys}
use dovesnap.Prelude.Text.{concat, has_prefix}
use dovesnap.Outcome.{Result, ok, err}
use dovesnap.System.{modified, read_file, call, lift}
use dovesnap.Naming.{patch_prefix}
use dovesnap.Links.{ovs_port_prefix}
use dovesnap.Ports.{PortDesc, scrape_port_desc}
use dovesnap.AddPorts.{no_ports, only_ports, parse_add_ports}
use dovesnap.Faucet.{
  must_set_faucet_config_file, must_delete_dp_interface, vlan_interface_yaml,
  merge_single_dp_minimal_yaml,
}
use dovesnap.State.{NetworkState, ContainerState, StackMirrorConfig}
use dovesnap.Manager.{
  M, pure, io, gets, modify, skip, get_network, get_mirror_config, delete_dynamic, write_container,
  ◌>>=◌, ◌>>◌,
}
use dovesnap.Handlers.Create.{of_port_local, add_external_port}

abbrev pub same_desc : Option String → String → Bool
same_desc none name = false
same_desc (some other) name = str_eq other name

unfoldable pub included : PortDesc → PortDesc → Bool
unfolding lookup
included List.[] other = true
included (List.◌∷◌ (port, name) rest) other =
    same_desc (lookup port other) name && included rest other

-- reflect.DeepEqual on two maps.
unfoldable pub deep_equal : PortDesc → PortDesc → Bool
unfolding included
deep_equal a b = included a b && included b a

-- Ports that are gone, but for those of containers.
unfoldable pub remove_ports : String → NetworkState → PortDesc → PortDesc → M (Unit {0})
remove_ports id ns new_port_desc List.[] = skip
remove_ports id ns new_port_desc (List.◌∷◌ (of_port, desc) rest) =
    let remove = (do
      io (must_delete_dp_interface ns.network_name of_port)
      delete_dynamic id (λ d. record d { external_ports = delete desc d.external_ports })) in
    (if has of_port new_port_desc || has_prefix desc ovs_port_prefix then skip else remove)
    >> remove_ports id ns new_port_desc rest

-- Ports that the program does not manage: not its gateway, mirror, container or patch ports, and not
-- those of the options.
unfoldable pub is_managed : StackMirrorConfig → Map String ℕ → ℕ → String → Bool
unfolding lookup has_prefix
is_managed sc add_ports of_port desc =
    of_port == of_port_local
    || of_port == sc.lb_port
    || has_prefix desc ovs_port_prefix
    || has_prefix desc patch_prefix
    || has desc add_ports

unfoldable pub add_new_ports :
    String → NetworkState → StackMirrorConfig → Map String ℕ → PortDesc → String → M String
add_new_ports id ns sc add_ports List.[] add_interfaces = pure add_interfaces
add_new_ports id ns sc add_ports (List.◌∷◌ (of_port, desc) rest) add_interfaces =
    let skipped = add_new_ports id ns sc add_ports rest add_interfaces in
    let yaml =
      vlan_interface_yaml of_port (concat (List.◌∷◌ "Physical interface " (List.◌∷◌ desc List.[])))
        ns.bridge_vlan "" in
    let added =
      add_new_ports id ns sc add_ports rest
        (concat (List.◌∷◌ add_interfaces (List.◌∷◌ yaml List.[]))) in
    if is_managed sc add_ports of_port desc
    then skipped
    else add_external_port id desc of_port >> added

unfoldable pub add_unmanaged :
    String → NetworkState → StackMirrorConfig → Map String ℕ → PortDesc → M (Unit {0})
add_unmanaged id ns sc add_ports new_port_desc = do
  add_interfaces ← add_new_ports id ns sc add_ports new_port_desc ""
  let set =
      io (must_set_faucet_config_file (merge_single_dp_minimal_yaml ns.network_name add_interfaces))
      >> skip
  if str_eq add_interfaces "" then skip else set
  modify (λ s. record s { all_port_desc = insert id new_port_desc s.all_port_desc })

unfoldable pub compare_ports :
    String
    → NetworkState
    → StackMirrorConfig
    → Map String ℕ
    → PortDesc
    → Option PortDesc
    → M (Unit {0})
compare_ports id ns sc add_ports new_port_desc none = add_unmanaged id ns sc add_ports new_port_desc
compare_ports id ns sc add_ports new_port_desc (some port_desc) =
    let changed =
      remove_ports id ns new_port_desc port_desc
      >> add_unmanaged id ns sc add_ports new_port_desc in
    if deep_equal new_port_desc port_desc then skip else changed

abbrev pub scraped_ports :
    String → NetworkState → StackMirrorConfig → Result PortDesc → M (Unit {0})
scraped_ports id ns sc (err _) = skip
scraped_ports id ns sc (ok new_port_desc) = do
  found ← io (lift (parse_add_ports only_ports ns.add_ports no_ports))
  found ← io (lift (parse_add_ports only_ports ns.add_copro_ports found))
  port_desc ← gets (λ s. lookup id s.all_port_desc)
  compare_ports id ns sc found.ports new_port_desc port_desc

unfoldable pub reconcile_network : String → M (Unit {0})
reconcile_network id = do
  ns ← get_network id
  sc ← get_mirror_config id
  r ← io (scrape_port_desc ns.bridge_name List.[])
  scraped_ports id ns sc r

unfoldable pub reconcile_networks : List String → M (Unit {0})
reconcile_networks List.[] = skip
reconcile_networks (List.◌∷◌ id rest) = reconcile_network id >> reconcile_networks rest

unfoldable pub reconcile_ovs : M (Unit {0})
reconcile_ovs = gets (λ s. keys s.networks) >>= reconcile_networks

abbrev is_blank : Char → Bool
is_blank c = code c == b' ' || code c == b'\n'

unfoldable pub trim_left : String → String
trim_left [] = []
trim_left (c ∷ s) = if is_blank c then trim_left s else c ∷ s

unfoldable pub trim_right : String → String
trim_right [] = []
trim_right (c ∷ s) =
    let rest = trim_right s in if str_eq rest "" && is_blank c then "" else c ∷ rest

-- strings.Trim(s, " \n")
unfoldable pub trim : String → String
unfolding trim_left trim_right
trim s = trim_right (trim_left s)

unfoldable pub ip_file : ContainerState → String
ip_file c = concat (List.◌∷◌ "/var/run/" (List.◌∷◌ c.id (List.◌∷◌ "-ipv4.txt" List.[])))

abbrev pub set_host_ip : String → String → ContainerState → Result String → M (Unit {0})
set_host_ip id container_id c (err _) = skip
set_host_ip id container_id c (ok content) =
    write_container id container_id (record c { host_ip = trim content })

unfoldable pub update_containers : String → Map String ContainerState → M (Unit {0})
update_containers id List.[] = skip
update_containers id (List.◌∷◌ (container_id, c) rest) = do
  r ← io (call (read_file (ip_file c)))
  set_host_ip id container_id c r
  update_containers id rest

unfoldable pub update_networks : List String → M (Unit {0})
update_networks List.[] = skip
update_networks (List.◌∷◌ id rest) = do
  ns ← get_network id
  if ns.use_dhcp then update_containers id ns.dynamic.containers else skip
  update_networks rest

abbrev pub stat_checked : Result String → M (Unit {0})
stat_checked (err _) = skip
stat_checked (ok mtime) = do
  last ← gets (λ s. s.last_dhcp_mtime)
  let update = (do
    modify (λ s. record s { last_dhcp_mtime = mtime })
    gets (λ s. keys s.networks) >>= update_networks)
  if str_eq mtime last then skip else update

unfoldable pub reconcile_dhcp_ip : M (Unit {0})
reconcile_dhcp_ip = do r ← io (call (modified "/var/run/udhcpc.updated")); stat_checked r

trim_test : trim " 10.0.0.2 \n" ≡ "10.0.0.2"
unfolding trim
trim_test = refl
