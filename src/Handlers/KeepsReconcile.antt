-- ===== src/Handlers/KeepsReconcile.antt =====
-- Which effects reconcileOvs and reconcileDhcpIp of ovs/driver.go have.
use dovesnap.Prelude.{ℕ, String, Option, none, some, List, [], ◌∷◌, refl}
use dovesnap.Prelude.Map.{Map}
use dovesnap.Outcome.{Result, ok, err}
use dovesnap.State.{NetworkState, ContainerState, StackMirrorConfig}
use dovesnap.Ports.{PortDesc}
use dovesnap.Manager.Keeps.{
  Relation, Keeps, Calm, OnDynamic, keep_bind, keep_pure, keep_gets, keep_io, keep_if, keep_modify,
  keep_network, keep_mirror, keep_delete, keep_container,
}
use dovesnap.Handlers.Keeps.{keep_unless}
use dovesnap.Handlers.KeepsNetwork.{keep_add_external}
use dovesnap.Handlers.Reconcile.{
  remove_ports, add_new_ports, add_unmanaged, compare_ports, scraped_ports, reconcile_network,
  reconcile_networks, reconcile_ovs, set_host_ip, update_containers, update_networks, stat_checked,
  reconcile_dhcp_ip,
}

module _ {R : Relation} (c : Calm R) (w : (id : String) → OnDynamic R id) where
  keep_remove_ports :
      (id : String) (ns : NetworkState) (new old : PortDesc) → Keeps R (remove_ports id ns new old)
  unfolding remove_ports
  keep_remove_ports id ns new [] = keep_pure c _
  keep_remove_ports id ns new ((p, desc) ∷ rest) =
      keep_bind c
        (keep_if c _ (keep_pure c _)
          (keep_bind c (keep_io c _) (λ _. keep_delete c (w id) _ (λ d. refl))))
        (λ _. keep_remove_ports id ns new rest)

  keep_add_new_ports :
      (id : String) (ns : NetworkState) (sc : StackMirrorConfig) (add_ports : Map String ℕ)
      (desc : PortDesc) (y : String)
      → Keeps R (add_new_ports id ns sc add_ports desc y)
  unfolding add_new_ports
  keep_add_new_ports id ns sc add_ports [] y = keep_pure c _
  keep_add_new_ports id ns sc add_ports ((p, desc) ∷ rest) y =
      keep_if c _ (keep_add_new_ports id ns sc add_ports rest y) (
        keep_bind c (keep_add_external c (w id) desc p)
          (λ _. keep_add_new_ports id ns sc add_ports rest _))

  keep_add_unmanaged :
      (id : String) (ns : NetworkState) (sc : StackMirrorConfig) (add_ports : Map String ℕ)
      (desc : PortDesc)
      → Keeps R (add_unmanaged id ns sc add_ports desc)
  unfolding add_unmanaged
  keep_add_unmanaged id ns sc add_ports desc =
      keep_bind c (keep_add_new_ports id ns sc add_ports desc "")
        (λ y. keep_bind c (keep_unless c _ _) (λ _. keep_modify c _ (λ s. c.on_desc s _)))

  keep_compare_ports :
      (id : String) (ns : NetworkState) (sc : StackMirrorConfig) (add_ports : Map String ℕ)
      (new : PortDesc) (old : Option PortDesc)
      → Keeps R (compare_ports id ns sc add_ports new old)
  unfolding compare_ports
  keep_compare_ports id ns sc add_ports new none = keep_add_unmanaged id ns sc add_ports new
  keep_compare_ports id ns sc add_ports new (some old) = keep_if c _ (keep_pure c _) (
      keep_bind c (keep_remove_ports id ns new old)
        (λ _. keep_add_unmanaged id ns sc add_ports new))

  keep_scraped_ports :
      (id : String) (ns : NetworkState) (sc : StackMirrorConfig) (r : Result PortDesc)
      → Keeps R (scraped_ports id ns sc r)
  keep_scraped_ports id ns sc (err _) = keep_pure c _
  keep_scraped_ports id ns sc (ok new) = keep_bind c (keep_io c _) (λ _.
      keep_bind c (keep_io c _) (λ found.
        keep_bind c (keep_gets c _) (λ old. keep_compare_ports id ns sc found.ports new old)))

  keep_reconcile_networks : (ids : List String) → Keeps R (reconcile_networks ids)
  unfolding reconcile_networks reconcile_network
  keep_reconcile_networks [] = keep_pure c _
  keep_reconcile_networks (id ∷ ids) =
      keep_bind c
        (keep_bind c (keep_network c _) (λ ns.
          keep_bind c (keep_mirror c _)
            (λ sc. keep_bind c (keep_io c _) (λ r. keep_scraped_ports id ns sc r))))
        (λ _. keep_reconcile_networks ids)

  pub keep_reconcile_ovs : Keeps R reconcile_ovs
  unfolding reconcile_ovs
  keep_reconcile_ovs = keep_bind c (keep_gets c _) keep_reconcile_networks

  keep_host_ip :
      (id container_id : String) (x : ContainerState) (r : Result String)
      → Keeps R (set_host_ip id container_id x r)
  keep_host_ip id container_id x (err _) = keep_pure c _
  keep_host_ip id container_id x (ok content) = keep_container c (w id) _ _

  keep_update_containers :
      (id : String) (m : Map String ContainerState) → Keeps R (update_containers id m)
  unfolding update_containers
  keep_update_containers id [] = keep_pure c _
  keep_update_containers id ((container_id, x) ∷ rest) =
      keep_bind c (keep_io c _)
        (λ r. keep_bind c (keep_host_ip id container_id x r) (λ _. keep_update_containers id rest))

  keep_update_networks : (ids : List String) → Keeps R (update_networks ids)
  unfolding update_networks
  keep_update_networks [] = keep_pure c _
  keep_update_networks (id ∷ ids) = keep_bind c (keep_network c _) (λ ns.
      keep_bind c (keep_if c _ (keep_update_containers id _) (keep_pure c _))
        (λ _. keep_update_networks ids))

  keep_stat_checked : (r : Result String) → Keeps R (stat_checked r)
  keep_stat_checked (err _) = keep_pure c _
  keep_stat_checked (ok mtime) = keep_bind c (keep_gets c _) (λ last. keep_if c _ (keep_pure c _) (
      keep_bind c (keep_modify c _ (λ s. c.on_mtime s mtime))
        (λ _. keep_bind c (keep_gets c _) keep_update_networks)))

  pub keep_reconcile_dhcp_ip : Keeps R reconcile_dhcp_ip
  unfolding reconcile_dhcp_ip
  keep_reconcile_dhcp_ip = keep_bind c (keep_io c _) keep_stat_checked
