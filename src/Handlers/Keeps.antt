-- ===== src/Handlers/Keeps.antt =====
-- Which effects each handler of ovs/driver.go has: a relation that allows those holds between the
-- states before and after it.
use dovesnap.Prelude.{ℕ, String, Bool, Option, none, some, List, [], ◌∷◌, refl, if◌then◌else◌}
use dovesnap.Prelude.Map.{string_key, nat_key, lookup}
use dovesnap.System.{Io, EndpointSettings, ContainerInspect}
use dovesnap.State.{NetworkState, PortMap, OfPortContainer}
use dovesnap.Manager.{DovesnapOp, io, skip, ◌>>◌}
use dovesnap.Manager.Keeps.{
  Relation, Keeps, Calm, OnTaken, OnLeft, OnDynamic, keep_bind, keep_pure, keep_panic, keep_gets,
  keep_io, keep_notify, keep_if, keep_network, keep_mirror, keep_modify, keep_option, keep_delete,
  keep_container,
}
use dovesnap.Handlers.Endpoint.{
  must_port_maps, must_be_joined, must_be_inspected, add_port_maps, delete_port_maps,
  must_net_settings, set_port, reserve_port_body, set_mac_prefix, set_offload, mirror_container,
  start_udhcpc, join_container_body, stop_udhcpc, forget_endpoint, leave_container_body,
}

module _ {R : Relation} (c : Calm R) where
  keep_set_port : (id : String) (x : OfPortContainer) → OnTaken R id → Keeps R (set_port id x)
  unfolding set_port
  keep_set_port id x o = keep_modify c _ (λ s. o s x)

  keep_add_port_maps :
      (b : String) (net : EndpointSettings) (ms : List PortMap) → Keeps R (add_port_maps b net ms)
  unfolding add_port_maps
  keep_add_port_maps b net [] = keep_pure c _
  keep_add_port_maps b net (m ∷ ms) =
      keep_bind c (keep_io c _) (λ p. keep_bind c (keep_io c _) (λ _. keep_add_port_maps b net ms))

  keep_delete_port_maps :
      (b : String) (net : EndpointSettings) (ms : List PortMap)
      → Keeps R (delete_port_maps b net ms)
  unfolding delete_port_maps
  keep_delete_port_maps b net [] = keep_pure c _
  keep_delete_port_maps b net (m ∷ ms) =
      keep_bind c (keep_io c _)
        (λ p. keep_bind c (keep_io c _) (λ _. keep_delete_port_maps b net ms))

  keep_net_settings : (name : String) (x : ContainerInspect) → Keeps R (must_net_settings name x)
  unfolding must_net_settings
  keep_net_settings name x =
      keep_option c (lookup name x.networks) _ _ (keep_panic c _) (λ net. keep_pure c _)

  keep_port_maps : (o : Option (List PortMap)) → Keeps R (must_port_maps o)
  keep_port_maps none = keep_panic c _
  keep_port_maps (some ms) = keep_pure c _

  -- An external call, where a flag asks for it.
  pub keep_asked {ℓ} :
      {A : Type ℓ} (b : Bool) (m : Io A) → Keeps R (if b then io m >> skip else skip)
  keep_asked b m = keep_if c b (keep_bind c (keep_io c m) (λ _. keep_pure c _)) (keep_pure c _)

  pub keep_unless {ℓ} :
      {A : Type ℓ} (b : Bool) (m : Io A) → Keeps R (if b then skip else io m >> skip)
  keep_unless b m = keep_if c b (keep_pure c _) (keep_bind c (keep_io c m) (λ _. keep_pure c _))

  pub keep_reserve : (op : DovesnapOp) → OnTaken R op.endpoint_id → Keeps R (reserve_port_body op)
  unfolding reserve_port_body
  keep_reserve op o = keep_bind c (keep_network c _) (λ ns.
      keep_bind c (keep_io c _) (λ _. keep_bind c (keep_io c _) (λ added. keep_set_port _ _ o)))

  keep_set_mac_prefix : (x : ContainerInspect) (mac : String) → Keeps R (set_mac_prefix x mac)
  unfolding set_mac_prefix
  keep_set_mac_prefix x mac =
      keep_option c (lookup "dovesnap.faucet.mac_prefix" x.labels) _ _ (keep_pure c _)
        (λ mac_prefix.
          keep_if c _ (keep_pure c _)
            (keep_bind c (keep_io c _) (λ _. keep_bind c (keep_io c _) (λ _. keep_pure c _))))

  keep_set_offload : (ns : NetworkState) (x : ContainerInspect) → Keeps R (set_offload ns x)
  unfolding set_offload
  keep_set_offload ns x = keep_asked _ _

  keep_mirror_container :
      (op : DovesnapOp) (ns : NetworkState) (x : ContainerInspect) (p : ℕ)
      → Keeps R (mirror_container op ns x p)
  unfolding mirror_container
  keep_mirror_container op ns x p =
      keep_option c (lookup "dovesnap.faucet.mirror" x.labels) _ _ (keep_pure c _) (λ mirror.
        keep_if c _
          (keep_bind c (keep_gets c _) (λ d. keep_bind c (keep_mirror c _) (λ sc. keep_asked _ _)))
          (keep_pure c _))

  keep_start_udhcpc : (ns : NetworkState) (x : ContainerInspect) → Keeps R (start_udhcpc ns x)
  unfolding start_udhcpc
  keep_start_udhcpc ns x =
      keep_if c _ (keep_bind c (keep_io c _) (λ _. keep_pure c _)) (keep_pure c _)

  keep_joined : (id : String) (o : Option OfPortContainer) → Keeps R (must_be_joined id o)
  keep_joined id none = keep_panic c _
  keep_joined id (some x) = keep_pure c _

  keep_inspected : (o : Option ContainerInspect) → Keeps R (must_be_inspected o)
  keep_inspected none = keep_panic c _
  keep_inspected (some x) = keep_pure c _

  keep_stop_udhcpc : (o : Option (List String)) → Keeps R (stop_udhcpc o)
  unfolding stop_udhcpc
  keep_stop_udhcpc none = keep_pure c _
  keep_stop_udhcpc (some cmd) = keep_bind c (keep_io c _) (λ _. keep_pure c _)

  pub keep_join :
      (op : DovesnapOp)
      → OnTaken R op.endpoint_id
      → OnDynamic R op.network_id
      → Keeps R (join_container_body op)
  unfolding join_container_body
  keep_join op o w = keep_bind c (keep_gets c _) (λ p. keep_bind c (keep_network c _) (λ ns.
      keep_bind c (keep_io c _) (λ found. keep_bind c (keep_io c _) (λ x.
        keep_bind c (keep_net_settings _ x) (λ net. keep_bind c (keep_io c _) (λ _.
          keep_bind c (keep_set_mac_prefix x _) (λ _. keep_bind c (keep_set_offload ns x) (λ _.
            keep_bind c (keep_port_maps op.options) (λ ms.
              keep_bind c (keep_add_port_maps _ net ms) (λ _. keep_bind c (keep_io c _) (λ short.
                keep_bind c (keep_io c _) (λ _. keep_bind c (keep_mirror_container op ns x p) (λ _.
                  keep_bind c (keep_start_udhcpc ns x) (λ u. keep_bind c (keep_set_port _ _ o) (λ _.
                    keep_bind c (keep_container c w _ _)
                      (λ _. keep_bind c (keep_network c _) (λ _. keep_notify c _)))))))))))))))))

  pub keep_leave :
      (op : DovesnapOp)
      → OnLeft R op.endpoint_id
      → OnDynamic R op.network_id
      → Keeps R (leave_container_body op)
  unfolding leave_container_body forget_endpoint
  keep_leave op o w = keep_bind c (keep_gets c _) (λ p. keep_bind c (keep_joined _ p) (λ cm.
      keep_bind c (keep_stop_udhcpc _) (λ _. keep_bind c (keep_io c _) (λ short.
        keep_bind c (keep_io c _) (λ port. keep_bind c (keep_io c _) (λ _.
          keep_bind c (keep_network c _) (λ ns. keep_bind c (keep_io c _) (λ _.
            keep_bind c (keep_io c _) (λ _. keep_bind c (keep_inspected cm.container_inspect) (λ x.
              keep_bind c (keep_net_settings _ x) (λ net.
                keep_bind c (keep_port_maps cm.port_maps) (λ ms.
                  keep_bind c (keep_delete_port_maps _ net ms) (λ _.
                    keep_bind c
                      (keep_bind c (keep_modify c _ (λ s. o s))
                        (λ _. keep_delete c w _ (λ d. refl)))
                      (λ _.
                        keep_bind c (keep_io c _)
                          (λ _. keep_bind c (keep_network c _) (λ _. keep_notify c _))))))))))))))))
