-- ===== src/Handlers/KeepsDispatch.antt =====
-- Which effects one message of the resource manager of ovs/driver.go has.
use dovesnap.Prelude.{ℕ, String, Bool, true, false, ◌||◌, ◌≡◌, refl, arith, str_eq, if◌then◌else◌}
use dovesnap.Manager.{M, Manager, DovesnapOp, OpReply, send_reply}
use dovesnap.Manager.Keeps.{
  Relation, Keeps, Calm, OnTaken, OnLeft, OnDynamic, keep_bind, keep_done, keep_pure, keep_gets,
  keep_io, keep_if, keep_network, keep_deferred,
}
use dovesnap.Handlers.Create.{store_network, must_handle_create_network}
use dovesnap.Handlers.Delete.{forget_network, must_handle_delete_network}
use dovesnap.Handlers.Endpoint.{
  must_handle_reserve_port, must_handle_join_container, must_handle_leave_container,
}
use dovesnap.Handlers.Dispatch.{
  unrecovered, must_handle_get_network, must_handle_networks, driver_init_bridge,
  recreate_bad_bridge, recreate_down_bridge, reconcile, operate, step,
}
use dovesnap.Handlers.Keeps.{keep_reserve, keep_join, keep_leave}
use dovesnap.Handlers.KeepsNetwork.{keep_create, keep_delete_network}

-- The operations that store the message's own network.
unfoldable pub is_creating : DovesnapOp → Bool
is_creating op =
    str_eq op.operation "recreatebadbridge"
    || str_eq op.operation "recreatedownbridge"
    || str_eq op.operation "create"

-- The operations that forget a network, and those that take a number from the counter.
unfoldable pub is_deleting : DovesnapOp → Bool
is_deleting op = str_eq op.operation "recreatedownbridge" || str_eq op.operation "delete"

unfoldable pub is_counted : DovesnapOp → Bool
unfolding is_creating is_deleting
is_counted op = is_creating op || is_deleting op

-- The operations that write the port of an endpoint.
unfoldable pub is_taking : DovesnapOp → Bool
is_taking op = str_eq op.operation "join" || str_eq op.operation "reserveport"

-- What a relation says of the effects that `Calm` leaves open, for one message.
pub record Allows (R : Relation) (op : DovesnapOp) : Type 0 where
  pub on_dynamic : OnDynamic R op.network_id
  pub on_taken : (is_taking op ≡ true) → OnTaken R op.endpoint_id
  pub on_left : (str_eq op.operation "leave" ≡ true) → OnLeft R op.endpoint_id
  pub on_store :
      (is_creating op ≡ true)
      → (name : String)
      → Keeps R (store_network op (record op.new_network_state { network_name = name }))
  pub on_forget : (is_deleting op ≡ true) → Keeps R (forget_network op.network_id)
  pub on_reply : (r : OpReply) → Keeps R (send_reply op r)
  pub on_done : (is_counted op ≡ true) → (s : Manager) (k : ℕ) → R s (record s { pending = k })
  pub on_rounds : (str_eq op.operation "networks" ≡ true) → Keeps R reconcile

keep_when :
    {R : Relation} (b : Bool) (m k : M (Unit {0}))
    → ((b ≡ true) → Keeps R m)
    → Keeps R k
    → Keeps R (if b then m else k)
keep_when true m k h g = h refl
keep_when false m k h g = g

module _ {R : Relation} (c : Calm R) (op : DovesnapOp) where
  pub keep_handle_reserve : OnTaken R op.endpoint_id → Keeps R (must_handle_reserve_port op)
  unfolding must_handle_reserve_port
  keep_handle_reserve o = keep_deferred c (keep_pure c _) (keep_reserve c op o)

  pub keep_handle_join :
      OnTaken R op.endpoint_id → OnDynamic R op.network_id → Keeps R (must_handle_join_container op)
  unfolding must_handle_join_container
  keep_handle_join o w = keep_deferred c (keep_pure c _) (keep_join c op o w)

  module _ (reply : (r : OpReply) → Keeps R (send_reply op r)) where
    pub keep_handle_leave :
        OnLeft R op.endpoint_id
        → OnDynamic R op.network_id
        → Keeps R (must_handle_leave_container op)
    unfolding must_handle_leave_container
    keep_handle_leave o w = keep_deferred c (reply _) (keep_leave c op o w)

    pub keep_get_network : Keeps R (must_handle_get_network op)
    unfolding must_handle_get_network
    keep_get_network = keep_bind c (keep_network c _) (λ ns. reply _)

    pub keep_networks : Keeps R (must_handle_networks op)
    unfolding must_handle_networks
    keep_networks = keep_bind c (keep_gets c _) (λ ns. reply _)

  pub keep_init_bridge : Keeps R (driver_init_bridge op)
  unfolding driver_init_bridge
  keep_init_bridge = keep_bind c (keep_gets c _) (λ d. keep_io c _)

  keep_unrecovered : {m : M (Unit {0})} → Keeps R m → Keeps R (unrecovered m)
  unfolding unrecovered
  keep_unrecovered h = record { after = λ env s. h.after env s }

module _ {R : Relation} (c : Calm R) (op : DovesnapOp) (a : Allows R op) where
  keep_handle_create : (is_creating op ≡ true) → Keeps R (must_handle_create_network op)
  unfolding must_handle_create_network is_counted
  keep_handle_create h =
      keep_deferred c (keep_done c (a.on_done (ground (arith, h))))
        (keep_create c op a.on_dynamic (a.on_store h))

  keep_handle_delete : (is_deleting op ≡ true) → Keeps R (must_handle_delete_network op)
  unfolding must_handle_delete_network is_counted
  keep_handle_delete h =
      keep_deferred c (keep_done c (a.on_done (ground (arith, h))))
        (keep_delete_network c op (a.on_forget h) (a.on_reply _))

  keep_bad_bridge : (is_creating op ≡ true) → Keeps R (recreate_bad_bridge op)
  unfolding recreate_bad_bridge
  keep_bad_bridge h = keep_bind c (keep_gets c _) (λ d.
      keep_bind c (keep_io c _)
        (λ _. keep_bind c (keep_init_bridge c op) (λ _. keep_handle_create h)))

  keep_down_bridge :
      (is_creating op ≡ true) → (is_deleting op ≡ true) → Keeps R (recreate_down_bridge op)
  unfolding recreate_down_bridge
  keep_down_bridge h g =
      keep_bind c (keep_bind c (keep_handle_delete g) (λ _. keep_init_bridge c op))
        (λ _. keep_handle_create h)

  keep_operate : Keeps R (operate op)
  unfolding operate is_creating is_deleting is_taking
  keep_operate =
      keep_when _ _ _ (λ h. keep_bad_bridge (ground (arith, h)))
        (keep_when _ _ _ (λ h. keep_down_bridge (ground (arith, h)) (ground (arith, h)))
          (keep_when _ _ _ (λ h. keep_handle_create (ground (arith, h)))
            (keep_when _ _ _ (λ h. keep_handle_delete (ground (arith, h)))
              (keep_when _ _ _
                (λ h. keep_handle_join c op (a.on_taken (ground (arith, h))) a.on_dynamic)
                (keep_when _ _ _ (λ h. keep_handle_leave c op a.on_reply (a.on_left h) a.on_dynamic)
                  (keep_when _ _ _ (λ h. keep_handle_reserve c op (a.on_taken (ground (arith, h))))
                    (keep_if c _ (keep_get_network c op a.on_reply) (
                      keep_when _ _ _
                        (λ h. keep_bind c (a.on_rounds h) (λ _. keep_networks c op a.on_reply))
                        (keep_pure c _)))))))))

  pub keep_step : Keeps R (step op)
  unfolding step
  keep_step = keep_unrecovered c op keep_operate
