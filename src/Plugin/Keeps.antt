-- ===== src/Plugin/Keeps.antt =====
-- Which effects the requests of the plugin interface (ovs/driver.go) have.
use dovesnap.Prelude.{ℕ, zero, suc, String, Option, List}
use dovesnap.State.{PortMap}
use dovesnap.Config.{CreateNetworkRequest}
use dovesnap.Manager.{pure, M, Manager, DovesnapOp, modify}
use dovesnap.Manager.Keeps.{
  Relation, Keeps, Calm, keep_bind, keep_gets, keep_io, keep_if, keep_pure, keep_modify,
  keep_network,
}
use dovesnap.Channel.{send_message, wait_group_add, wait_group_wait, wait, recovered}
use dovesnap.Plugin.{
  get_capabilities, program_external_connectivity, revoke_external_connectivity, free_network,
  discover_new, discover_delete, delete_endpoint, allocate_network, endpoint_info, PluginRequest,
  create_network_request, delete_network_request, create_endpoint_request, join_request,
  leave_request, networks_request, capabilities_request, program_request, revoke_request,
  free_request, discover_new_request, discover_delete_request, delete_endpoint_request,
  allocate_request, info_request, serve, prepare_network, re_or_create_network, create_network,
  delete_network, create_endpoint, join, leave, get_web_response,
}

module _ {R : Relation} (c : Calm R) where
  pub keep_prepare :
      (r : CreateNetworkRequest) (operation : String) → Keeps R (prepare_network r operation)
  unfolding prepare_network
  keep_prepare r operation = keep_bind c (keep_gets c _) (λ d. keep_bind c (keep_io c _) (λ h.
      keep_bind c (keep_io c _) (λ ns.
        keep_bind c (keep_io c _)
          (λ _. keep_bind c (keep_io c _) (λ _. keep_bind c (keep_io c _) (λ _. keep_pure c _))))))

  pub keep_waiting {ℓ} : {A : Type ℓ} → Keeps R (wait {A = A})
  unfolding wait
  keep_waiting = record { after = λ env s. c.same s }

  wait_case : (n : ℕ) → Keeps R (elim n [ zero ↦ modify (λ s. s) | suc _ ↦ wait ])
  wait_case zero = keep_modify c _ c.same
  wait_case (suc n) = keep_waiting

  pub keep_wait : Keeps R wait_group_wait
  unfolding wait_group_wait
  keep_wait = keep_bind c (keep_gets c _) wait_case

  keep_recovered {ℓ} : {A : Type ℓ} {m : M A} → Keeps R m → Keeps R (recovered m)
  unfolding recovered
  keep_recovered h = record { after = λ env s. h.after env s }

  module _ (add : (s : Manager) (k : ℕ) → R s (record s { pending = k }))
      (send : (s : Manager) (q : List DovesnapOp) → R s (record s { queue = q })) where
    keep_message : (op : DovesnapOp) → Keeps R (send_message op)
    unfolding send_message
    keep_message op =
        keep_bind c (keep_gets c _)
          (λ n. keep_if c _ (keep_modify c _ (λ s. send s _)) keep_waiting)

    keep_add : Keeps R wait_group_add
    unfolding wait_group_add
    keep_add = keep_modify c _ (λ s. add s _)

    keep_create : (r : CreateNetworkRequest) → Keeps R (create_network r)
    unfolding create_network re_or_create_network
    keep_create r =
        keep_recovered (
          keep_bind c (keep_prepare r "create") (λ op. keep_bind c keep_add (λ _. keep_message op)))

    keep_endpoint :
        (id endpoint : String) (mac : Option String) → Keeps R (create_endpoint id endpoint mac)
    unfolding create_endpoint
    keep_endpoint id endpoint mac = keep_bind c (keep_io c _) (λ suffix.
        keep_bind c (keep_io c _) (λ _.
          keep_bind c (keep_io c _) (λ found. keep_bind c (keep_message _) (λ _. keep_pure c _))))

    keep_join :
        (id endpoint : String) (options : Option (List PortMap))
        → Keeps R (join id endpoint options)
    unfolding join
    keep_join id endpoint options = keep_bind c keep_wait (λ _.
        keep_bind c (keep_network c id) (λ ns.
          keep_bind c (keep_io c _) (λ suffix. keep_bind c (keep_message _) (λ _. keep_pure c _))))

    keep_idle : Keeps R (pure {A = Unit {0}} tt)
    keep_idle = keep_pure c tt

    pub keep_serve : (r : PluginRequest) → Keeps R (serve r)
    unfolding serve delete_network leave get_web_response get_capabilities
        program_external_connectivity revoke_external_connectivity free_network discover_new
        discover_delete delete_endpoint allocate_network endpoint_info pure
    keep_serve (create_network_request r) = keep_bind c (keep_create r) (λ _. keep_pure c _)
    keep_serve (delete_network_request id) = keep_bind c keep_add (λ _. keep_message _)
    keep_serve (create_endpoint_request id endpoint mac) =
        keep_bind c (keep_endpoint id endpoint mac) (λ _. keep_pure c _)
    keep_serve (join_request id endpoint options) =
        keep_bind c (keep_join id endpoint options) (λ _. keep_pure c _)
    keep_serve (leave_request id endpoint) = keep_message _
    keep_serve networks_request = keep_message _
    keep_serve capabilities_request = keep_idle
    keep_serve (program_request id endpoint) = keep_idle
    keep_serve (revoke_request id endpoint) = keep_idle
    keep_serve (free_request id) = keep_idle
    keep_serve (discover_new_request kind) = keep_idle
    keep_serve (discover_delete_request kind) = keep_idle
    keep_serve (delete_endpoint_request id endpoint) = keep_idle
    keep_serve (allocate_request id) = keep_idle
    keep_serve (info_request id endpoint) = keep_idle
