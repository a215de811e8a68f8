-- ===== src/Handlers/KeepsNetwork.antt =====
-- Which effects mustHandleCreateNetwork and mustHandleDeleteNetwork of ovs/driver.go have.
use dovesnap.Prelude.{ℕ, String, Option, none, some, List, [], ◌∷◌}
use dovesnap.Prelude.Map.{Map}
use dovesnap.Outcome.{Result, ok, err}
use dovesnap.State.{NetworkState, DriverConfig}
use dovesnap.Manager.{DovesnapOp, empty_reply, send_reply}
use dovesnap.Manager.Keeps.{
  Relation, Keeps, Calm, OnDynamic, keep_bind, keep_pure, keep_panic, keep_fatal, keep_gets,
  keep_io, keep_notify, keep_if, keep_network, keep_mirror, keep_external, keep_other,
}
use dovesnap.Handlers.Keeps.{keep_unless}
use dovesnap.Handlers.Create.{
  add_external_port, add_vlan_ports, add_copro_ports, add_option_ports, add_gateway_port,
  add_mirror_port, stack_or_single, set_vlan_acl, set_remote_mirror, set_port_acls, no_error,
  create_network_body, store_network,
}
use dovesnap.Handlers.Delete.{nat_deleted, delete_nat, forget_network, delete_network_body}

module _ {R : Relation} (c : Calm R) where
  module _ {id : String} (w : OnDynamic R id) where
    pub keep_add_external : (name : String) (p : ℕ) → Keeps R (add_external_port id name p)
    unfolding add_external_port
    keep_add_external name p = keep_bind c (keep_io c _) (λ mac. keep_external c w _ _)

    keep_vlan_ports :
        (ns : NetworkState) (vlans : Map String ℕ) (ports : List String) (y : String)
        → Keeps R (add_vlan_ports id ns vlans ports y)
    unfolding add_vlan_ports
    keep_vlan_ports ns vlans [] y = keep_pure c _
    keep_vlan_ports ns vlans (p ∷ ps) y =
        keep_bind c (keep_io c _)
          (λ n. keep_bind c (keep_add_external p n) (λ _. keep_vlan_ports ns vlans ps _))

    keep_copro_ports : (ports : List String) (y : String) → Keeps R (add_copro_ports id ports y)
    unfolding add_copro_ports
    keep_copro_ports [] y = keep_pure c _
    keep_copro_ports (p ∷ ps) y =
        keep_bind c (keep_io c _)
          (λ n. keep_bind c (keep_add_external p n) (λ _. keep_copro_ports ps _))

  keep_option_ports :
      (op : DovesnapOp) (ns : NetworkState)
      → OnDynamic R op.network_id
      → Keeps R (add_option_ports op ns)
  unfolding add_option_ports
  keep_option_ports op ns w = keep_bind c (keep_io c _) (λ found.
      keep_bind c (keep_vlan_ports w ns _ _ _) (λ y.
        keep_bind c (keep_io c _)
          (λ copro. keep_bind c (keep_copro_ports w _ y) (λ _. keep_pure c _))))

  keep_gateway :
      (op : DovesnapOp) (ns : NetworkState) (b y : String)
      → OnDynamic R op.network_id
      → Keeps R (add_gateway_port op ns b y)
  unfolding add_gateway_port
  keep_gateway op ns b y w =
      keep_if c _ (keep_bind c (keep_add_external w b _) (λ _. keep_pure c _)) (keep_pure c _)

  keep_mirror_port :
      (op : DovesnapOp) (d : DriverConfig) (ns : NetworkState) (y : String)
      → OnDynamic R op.network_id
      → Keeps R (add_mirror_port op d ns y)
  unfolding add_mirror_port
  keep_mirror_port op d ns y w =
      keep_if c _
        (keep_bind c (keep_mirror c _) (λ sc. keep_bind c (keep_io c _) (λ _.
          keep_bind c (keep_io c _) (λ _.
            keep_bind c (keep_io c _)
              (λ _. keep_bind c (keep_other c w _ _) (λ _. keep_pure c _))))))
        (keep_pure c _)

  keep_stack_or_single :
      (op : DovesnapOp) (d : DriverConfig) (ns : NetworkState) (y : String)
      → OnDynamic R op.network_id
      → Keeps R (stack_or_single op d ns y)
  unfolding stack_or_single
  keep_stack_or_single op d ns y w =
      keep_if c _
        (keep_bind c (keep_io c _) (λ _. keep_bind c (keep_io c _) (λ _.
          keep_bind c (keep_io c _) (λ _.
            keep_bind c (keep_io c _)
              (λ _. keep_bind c (keep_other c w _ _) (λ _. keep_pure c _))))))
        (keep_pure c _)

  keep_vlan_acl : (ns : NetworkState) → Keeps R (set_vlan_acl ns)
  unfolding set_vlan_acl
  keep_vlan_acl ns = keep_unless c _ _

  keep_remote_mirror :
      (op : DovesnapOp) (d : DriverConfig) (ns : NetworkState) → Keeps R (set_remote_mirror op d ns)
  unfolding set_remote_mirror
  keep_remote_mirror op d ns =
      keep_if c _
        (keep_bind c (keep_mirror c _) (λ sc. keep_bind c (keep_io c _) (λ _. keep_pure c _)))
        (keep_pure c _)

  keep_port_acls : (ns : NetworkState) (acls : Map ℕ String) → Keeps R (set_port_acls ns acls)
  unfolding set_port_acls
  keep_port_acls ns [] = keep_pure c _
  keep_port_acls ns ((p, a) ∷ rest) = keep_bind c (keep_unless c _ _) (λ _. keep_port_acls ns rest)

  pub keep_no_error : (e : Option String) → Keeps R (no_error e)
  keep_no_error none = keep_pure c _
  keep_no_error (some m) = keep_panic c _

  pub keep_create :
      (op : DovesnapOp)
      → OnDynamic R op.network_id
      → ((name : String)
          → Keeps R (store_network op (record op.new_network_state { network_name = name })))
      → Keeps R (create_network_body op)
  unfolding create_network_body
  keep_create op w store = keep_bind c (keep_io c _) (λ _. keep_bind c (keep_gets c _) (λ d.
      keep_bind c (keep_io c _) (λ _. keep_bind c (keep_io c _) (λ inspected.
        keep_bind c (keep_no_error inspected.1) (λ _.
          keep_bind c (store inspected.0.network_name) (λ _.
            keep_bind c (keep_option_ports op _ w) (λ ports. keep_bind c (keep_io c _) (λ _.
              keep_bind c (keep_gateway op _ _ _ w) (λ _.
                keep_bind c (keep_mirror_port op d _ _ w) (λ _.
                  keep_bind c (keep_stack_or_single op d _ _ w) (λ _.
                    keep_bind c (keep_io c _) (λ _. keep_bind c (keep_vlan_acl _) (λ _.
                      keep_bind c (keep_remote_mirror op d _) (λ _.
                        keep_bind c (keep_port_acls _ ports.1)
                          (λ _. keep_bind c (keep_network c _) (λ _. keep_notify c _))))))))))))))))

  keep_nat_deleted : (r : Result String) → Keeps R (nat_deleted r)
  keep_nat_deleted (ok _) = keep_pure c _
  keep_nat_deleted (err _) = keep_fatal c _

  pub keep_delete_nat : (ns : NetworkState) → Keeps R (delete_nat ns)
  unfolding delete_nat
  keep_delete_nat ns = keep_if c _ (keep_bind c (keep_io c _) keep_nat_deleted) (keep_pure c _)

  pub keep_delete_network :
      (op : DovesnapOp)
      → Keeps R (forget_network op.network_id)
      → Keeps R (send_reply op empty_reply)
      → Keeps R (delete_network_body op)
  unfolding delete_network_body
  keep_delete_network op forget send = keep_bind c (keep_network c _) (λ ns.
      keep_bind c (keep_io c _) (λ _. keep_bind c (keep_delete_nat ns) (λ _.
        keep_bind c (keep_gets c _) (λ d.
          keep_bind c (keep_io c _)
            (λ _. keep_bind c forget (λ _. keep_bind c send (λ _. keep_notify c _)))))))
