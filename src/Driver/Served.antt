-- ===== src/Driver/Served.antt =====
-- What a request of the plugin interface (ovs/driver.go) does to the counter and to the channel.
use mathlib.Core.Path.{subst}
use dovesnap.Prelude.{
  ℕ, suc, sym, ◌+◌, String, Bool, true, false, Option, List, [], ◌∷◌, ◌++◌, ◌≡◌, refl, ap, ◌∙◌, ◌⊎◌,
  inl, inr, arith, str_eq, if◌then◌else◌,
}
use dovesnap.Outcome.{Outcome, returned, panicked, exited, blocked, HasEnded, Result, ok, err}
use dovesnap.System.{Env}
use dovesnap.State.{PortMap}
use dovesnap.Config.{CreateNetworkRequest}
use dovesnap.Manager.{pure, M, Manager, DovesnapOp, continue, gets, modify, ◌>>=◌, ◌>>◌}
use dovesnap.Manager.Keeps.{Relation, Keeps, keep_io, keep_pure, keep_network}
use dovesnap.Channel.{send_message, wait_group_add, wait}
use dovesnap.Channel.Traffic.{SameTraffic, traffic_laws}
use dovesnap.Plugin.{
  get_capabilities, program_external_connectivity, revoke_external_connectivity, free_network,
  discover_new, discover_delete, delete_endpoint, allocate_network, endpoint_info, PluginRequest,
  create_network_request, delete_network_request, create_endpoint_request, join_request,
  leave_request, networks_request, capabilities_request, program_request, revoke_request,
  free_request, discover_new_request, discover_delete_request, delete_endpoint_request,
  allocate_request, info_request, serve, create_network, delete_network, delete_message,
  create_endpoint, endpoint_message, join, join_message, leave, get_web_response,
}
use dovesnap.Plugin.Keeps.{keep_wait}
use dovesnap.Plugin.Answers.{IsAnswered, IsRequested, create_network_answers}
use dovesnap.Handlers.KeepsDispatch.{is_creating, is_deleting, is_counted}

-- One for a message that changes the networks.
abbrev pub weight : DovesnapOp → ℕ
weight op = if is_counted op then 1 else 0

-- A message that a request sends: its network state has its maps where it creates a network.
pub record IsSafe (op : DovesnapOp) : Type 0 where
  pub made : (is_creating op ≡ true) → op.new_network_state.dynamic.made ≡ true
  pub once : str_eq op.operation "recreatedownbridge" ≡ false

-- The request has sent nothing, or one message, which it has counted.
abbrev pub IsServed : Relation
IsServed s t =
    SameTraffic s t
    ⊎ ((op : DovesnapOp) × IsSafe op
        × (t.queue ≡ s.queue ++ (op ∷ []))
        × (t.pending ≡ weight op + s.pending))

record SendsOnce {ℓ} {A : Type ℓ} (m : M A) : Type 0 where
  after : (env : Env) (s : Manager) → HasEnded (m env s).0 → IsServed s (m env s).1

plain_after : (s t u : Manager) → IsServed s t → SameTraffic t u → IsServed s u
plain_after s t u (inl h) k = inl (k.0 ∙ h.0, k.1 ∙ h.1)
plain_after s t u (inr (op, safe, q, p)) k = inr (op, safe, k.1 ∙ q, k.0 ∙ p)

plain_before : (s t u : Manager) → SameTraffic s t → IsServed t u → IsServed s u
plain_before s t u h (inl k) = inl (k.0 ∙ h.0, k.1 ∙ h.1)
plain_before s t u h (inr (op, safe, q, p)) =
    inr (op, safe, q ∙ ap (λ l. l ++ (op ∷ [])) h.1, p ∙ ap (λ n. weight op + n) h.0)

module _ {ℓ κ} {A : Type ℓ} {B : Type κ} (f : A → M B) (env : Env) (s t : Manager) where
  before_after :
      (o : Outcome A)
      → SameTraffic s t
      → ((a : A) → SendsOnce (f a))
      → HasEnded (continue o f env t).0
      → IsServed s (continue o f env t).1
  unfolding HasEnded
  before_after (returned a) h k e = plain_before s t (f a env t).1 h ((k a).after env t e)
  before_after (panicked m) h k e = inl h
  before_after (exited m) h k e = elim e [ ]
  before_after blocked h k e = elim e [ ]

  behind_after :
      (o : Outcome A)
      → (HasEnded o → IsServed s t)
      → ((a : A) → Keeps SameTraffic (f a))
      → HasEnded (continue o f env t).0
      → IsServed s (continue o f env t).1
  unfolding HasEnded
  behind_after (returned a) h k e = plain_after s t (f a env t).1 (h tt) ((k a).after env t)
  behind_after (panicked m) h k e = h tt
  behind_after (exited m) h k e = elim e [ ]
  behind_after blocked h k e = elim e [ ]

module _ {ℓ κ} {A : Type ℓ} {B : Type κ} {m : M A} {f : A → M B} where
  behind_rule : Keeps SameTraffic m → ((a : A) → SendsOnce (f a)) → SendsOnce (m >>= f)
  behind_rule h k = record {
    after = λ env s e. before_after f env s (m env s).1 (m env s).0 (h.after env s) k e;
  }

  first_rule : SendsOnce m → ((a : A) → Keeps SameTraffic (f a)) → SendsOnce (m >>= f)
  first_rule h k = record {
    after = λ env s e. behind_after f env s (m env s).1 (m env s).0 (h.after env s) k e;
  }

module _ (op : DovesnapOp) (safe : IsSafe op) (n : ℕ) (w : weight op ≡ n) where
  -- `n` has been added to the counter before.
  sent :
      (env : Env) (s t : Manager) (b : Bool)
      → t.queue ≡ s.queue
      → t.pending ≡ n + s.pending
      → let m : M (Unit {0}) =
          if b then modify (λ u. record u { queue = u.queue ++ (op ∷ []) }) else wait in
        HasEnded (m env t).0 → IsServed s (m env t).1
  unfolding modify wait HasEnded
  sent env s t true q p e = inr (op, safe, ap (λ l. l ++ (op ∷ [])) q, cc)
  sent env s t false q p e = elim e [ ]

sending : (op : DovesnapOp) → IsSafe op → weight op ≡ 0 → SendsOnce (send_message op)
unfolding send_message gets
sending op safe w = record { after = λ env s e. sent op safe 0 w env s s _ refl (omega arith) e }

changing :
    (op : DovesnapOp) → IsSafe op → weight op ≡ 1 → SendsOnce (wait_group_add >> send_message op)
unfolding send_message wait_group_add gets modify
changing op safe w = record {
  after = λ env s e.
      sent op safe 1 w env s (record s { pending = suc s.pending }) _ refl (omega arith) e;
}

requested-IsSafe :
    (r : CreateNetworkRequest) (op : DovesnapOp) → IsRequested r "create" op → IsSafe op
requested-IsSafe r op h = record {
  made = λ _. h.made;
  once = subst (λ x. str_eq x "recreatedownbridge" ≡ false) (sym h.operation) refl;
}

creation_weighs : (op : DovesnapOp) → op.operation ≡ "create" → weight op ≡ 1
unfolding is_counted is_creating is_deleting
creation_weighs op h = subst (λ x. weight (record op { operation = x }) ≡ 1) (sym h) refl

by_answer :
    (r : CreateNetworkRequest) (o : Outcome (Result (Unit {0}))) (s t : Manager)
    → IsAnswered r s o t
    → HasEnded o
    → IsServed s t
unfolding IsAnswered HasEnded
by_answer r (returned (ok _)) s t (op, asked, q, p) e =
    let w = creation_weighs op asked.operation in
    inr (op, requested-IsSafe r op asked, q, omega arith)
by_answer r (returned (err _)) s t h e = inl h
by_answer r (panicked _) s t h e = elim h [ ]
by_answer r (exited _) s t h e = elim e [ ]
by_answer r blocked s t h e = elim e [ ]

by_create : (r : CreateNetworkRequest) → SendsOnce (create_network r)
by_create r = record {
  after = λ env s e. by_answer r (create_network r env s).0 s _ (create_network_answers r env s) e;
}

by_delete : (id : String) → SendsOnce (delete_network id)
unfolding delete_network delete_message is_counted is_creating is_deleting
by_delete id = changing (delete_message id) (record { made = λ h. cc; once = refl }) refl

by_endpoint :
    (id endpoint : String) (mac : Option String) → SendsOnce (create_endpoint id endpoint mac)
unfolding create_endpoint endpoint_message is_counted is_creating is_deleting
by_endpoint id endpoint mac = behind_rule (keep_io traffic_laws _) (λ suffix.
    behind_rule (keep_io traffic_laws _) (λ _. behind_rule (keep_io traffic_laws _) (λ found.
      first_rule
        (sending (endpoint_message "reserveport" id endpoint)
          (record { made = λ h. cc; once = refl }) refl)
        (λ _. keep_pure traffic_laws _))))

by_join :
    (id endpoint : String) (options : Option (List PortMap)) → SendsOnce (join id endpoint options)
unfolding join join_message is_counted is_creating is_deleting
by_join id endpoint options = behind_rule (keep_wait traffic_laws) (λ _.
    behind_rule (keep_network traffic_laws id) (λ ns.
      behind_rule (keep_io traffic_laws _) (λ suffix.
        first_rule
          (sending (join_message id endpoint options) (record { made = λ h. cc; once = refl }) refl)
          (λ _. keep_pure traffic_laws _))))

by_leave : (id endpoint : String) → SendsOnce (leave id endpoint)
unfolding leave endpoint_message is_counted is_creating is_deleting
by_leave id endpoint =
    sending (endpoint_message "leave" id endpoint) (record { made = λ h. cc; once = refl }) refl

by_networks : SendsOnce (get_web_response "networks")
unfolding get_web_response is_counted is_creating is_deleting
by_networks = sending _ (record { made = λ h. cc; once = refl }) refl

idle : SendsOnce (pure {A = Unit {0}} tt)
unfolding pure
idle = record { after = λ env s e. inl (refl, refl) }

-- What a request that ends has done: nothing to the counter and the channel, or it has sent one
-- message, and counted it where it changes the networks.
pub serve_lem :
    (r : PluginRequest) (env : Env) (s : Manager)
    → HasEnded (serve r env s).0
    → IsServed s (serve r env s).1
unfolding serve pure get_capabilities program_external_connectivity revoke_external_connectivity
    free_network discover_new discover_delete delete_endpoint allocate_network endpoint_info
serve_lem (create_network_request r) =
    (first_rule (by_create r) (λ _. keep_pure traffic_laws _)).after
serve_lem (delete_network_request id) = (by_delete id).after
serve_lem (create_endpoint_request id endpoint mac) =
    (first_rule (by_endpoint id endpoint mac) (λ _. keep_pure traffic_laws _)).after
serve_lem (join_request id endpoint options) =
    (first_rule (by_join id endpoint options) (λ _. keep_pure traffic_laws _)).after
serve_lem (leave_request id endpoint) = (by_leave id endpoint).after
serve_lem networks_request = by_networks.after
serve_lem capabilities_request = idle.after
serve_lem (program_request id endpoint) = idle.after
serve_lem (revoke_request id endpoint) = idle.after
serve_lem (free_request id) = idle.after
serve_lem (discover_new_request kind) = idle.after
serve_lem (discover_delete_request kind) = idle.after
serve_lem (delete_endpoint_request id endpoint) = idle.after
serve_lem (allocate_request id) = idle.after
serve_lem (info_request id endpoint) = idle.after
