-- ===== src/Driver/Counting.antt =====
-- What one message takes from the counter of ovs/driver.go (`createDeleteNetworkWG`).
use dovesnap.Prelude.{ℕ, suc, Bool, true, false, ◌≡◌, refl, ◌∙◌, arith, str_eq, if◌then◌else◌}
use dovesnap.Outcome.{Outcome, returned, panicked, exited, blocked}
use dovesnap.System.{Env}
use dovesnap.Manager.{M, Manager, DovesnapOp, wait_group_done, deferred, deferred_after}
use dovesnap.Manager.Keeps.{
  Relation, Keeps, Calm, core_laws, keep_bind, keep_gets, keep_io, keep_modify, keep_send,
}
use dovesnap.Manager.Triples.{Triple, rule_of_keeping, bind_rule}
use dovesnap.Channel.Traffic.{SameTraffic, traffic_laws}
use dovesnap.Handlers.Create.{store_network, create_network_body, must_handle_create_network}
use dovesnap.Handlers.Delete.{forget_network, delete_network_body, must_handle_delete_network}
use dovesnap.Handlers.Dispatch.{
  recreate_bad_bridge, reconcile, operate, unrecovered, crashed, step, tick,
}
use dovesnap.Handlers.KeepsDispatch.{
  Allows, is_creating, is_deleting, is_counted, keep_init_bridge, keep_step,
}
use dovesnap.Handlers.KeepsReconcile.{keep_reconcile_ovs, keep_reconcile_dhcp_ip}
use dovesnap.Handlers.Release.{counter_create, counter_delete, done_counts}
use dovesnap.Handlers.Ends.{HasPending, pending_laws}

traffic_reconcile : Keeps SameTraffic reconcile
unfolding reconcile
traffic_reconcile =
    keep_bind traffic_laws
      (keep_reconcile_ovs traffic_laws (λ id. record { written = λ s d _ _. (refl, refl) }))
      (λ _.
        keep_reconcile_dhcp_ip traffic_laws (λ id. record { written = λ s d _ _. (refl, refl) }))

pub traffic_tick : Keeps SameTraffic tick
unfolding tick unrecovered
traffic_tick = record { after = λ env s. traffic_reconcile.after env s }

-- What a message leaves alone, of the counter and the channel.
abbrev Uncounted : DovesnapOp → Relation
Uncounted op s t = (t.queue ≡ s.queue) × ((is_counted op ≡ false) → t.pending ≡ s.pending)

uncounting_laws : (op : DovesnapOp) → Calm (Uncounted op)
uncounting_laws op =
    core_laws (λ a b. (b.queue ≡ a.queue) × ((is_counted op ≡ false) → b.pending ≡ a.pending))
      (λ a. (refl, λ _. refl)) (λ a b c h k. (k.0 ∙ h.0, λ x. k.1 x ∙ h.1 x))

rounds_uncounting : (op : DovesnapOp) → Keeps (Uncounted op) reconcile
rounds_uncounting op = record {
  after = λ env s. let r = traffic_reconcile.after env s in (r.1, λ _. r.0);
}

uncounting_effects : (op : DovesnapOp) → Allows (Uncounted op) op
unfolding store_network forget_network
uncounting_effects op = record {
  on_dynamic = record { written = λ s d _ _. (refl, λ _. refl) };
  on_taken = λ _ s x. (refl, λ _. refl);
  on_left = λ _ s. (refl, λ _. refl);
  on_store = λ _ name. keep_modify (uncounting_laws op) _ (λ s. (refl, λ _. refl));
  on_forget = λ _. keep_modify (uncounting_laws op) _ (λ s. (refl, λ _. refl));
  on_reply = λ r. keep_send (uncounting_laws op) op r (λ s. (refl, λ _. refl));
  on_done = λ h s k. (refl, λ g. impossible h g);
  on_rounds = λ _. rounds_uncounting op;
}
  where
    impossible : {s t : ℕ} {b : Bool} → b ≡ true → b ≡ false → s ≡ t
    impossible h g = cc

-- However a message ends, the channel is as before; the counter is, unless the message is a change.
pub step-Uncounted : (op : DovesnapOp) → Keeps (Uncounted op) (step op)
step-Uncounted op = keep_step (uncounting_laws op) op (uncounting_effects op)

-- A handler whose deferred function takes one from the counter.
done_after :
    (n : ℕ) (o : Outcome (Unit {0})) (env : Env) (t : Manager) {a : Unit {0}}
    → t.pending ≡ suc n
    → (deferred_after o wait_group_done env t).0 ≡ returned a
    → (deferred_after o wait_group_done env t).1.pending ≡ n
unfolding deferred_after
done_after n (returned _) env t h e = (done_counts env t n h).1
done_after n (panicked _) env t h e = (done_counts env t n h).1
done_after n (exited _) env t h e = cc
done_after n blocked env t h e = cc

module _ (op : DovesnapOp) (n : ℕ) where
  create_counts : Triple (HasPending (suc n)) (HasPending n) (must_handle_create_network op)
  unfolding must_handle_create_network deferred
  create_counts = record {
    after = λ env s a h e.
        done_after n (create_network_body op env s).0 env (create_network_body op env s).1
          ((counter_create op).after env s ∙ h) e;
  }

  delete_counts : Triple (HasPending (suc n)) (HasPending n) (must_handle_delete_network op)
  unfolding must_handle_delete_network deferred
  delete_counts = record {
    after = λ env s a h e.
        done_after n (delete_network_body op env s).0 env (delete_network_body op env s).1
          ((counter_delete op).after env s ∙ h) e;
  }

  bad_bridge_counts : Triple (HasPending (suc n)) (HasPending n) (recreate_bad_bridge op)
  unfolding recreate_bad_bridge
  bad_bridge_counts = bind_rule (rule_of_keeping (keep_gets (pending_laws (suc n)) _)) (λ d.
      bind_rule (rule_of_keeping (keep_io (pending_laws (suc n)) _)) (λ _.
        bind_rule (rule_of_keeping (keep_init_bridge (pending_laws (suc n)) op))
          (λ _. create_counts)))

  when_rule :
      {P Q : Manager → Type 0} (b : Bool) (m k : M (Unit {0}))
      → ((b ≡ true) → Triple P Q m)
      → ((b ≡ false) → Triple P Q k)
      → Triple P Q (if b then m else k)
  when_rule true m k h g = h refl
  when_rule false m k h g = g refl

  operate_counts :
      is_counted op ≡ true
      → str_eq op.operation "recreatedownbridge" ≡ false
      → Triple (HasPending (suc n)) (HasPending n) (operate op)
  unfolding operate is_counted is_creating is_deleting
  operate_counts h up =
      when_rule (str_eq op.operation "recreatebadbridge") _ _ (λ _. bad_bridge_counts)
        (λ a.
          when_rule (str_eq op.operation "recreatedownbridge") _ _ (λ b. absurd b up)
            (λ b.
              when_rule (str_eq op.operation "create") _ _ (λ _. create_counts)
                (λ c.
                  when_rule (str_eq op.operation "delete") _ _ (λ _. delete_counts)
                    (λ d. absurd h (ground (arith, a, b, c, d))))))
    where
      absurd : {A : Type 0} {b : Bool} → b ≡ true → b ≡ false → A
      absurd h g = elim (apart h g) [ ]
        where
          apart : {b : Bool} → b ≡ true → b ≡ false → ⊥
          apart h g = cc

unrecovered_returned :
    (o : Outcome (Unit {0})) {a : Unit {0}} → crashed o ≡ returned a → o ≡ returned tt
unrecovered_returned (returned _) e = refl
unrecovered_returned (panicked _) e = cc
unrecovered_returned (exited _) e = cc
unrecovered_returned blocked e = cc

-- A change that returns, other than "recreatedownbridge", has taken one from the counter.
pub step_counts :
    (op : DovesnapOp) (n : ℕ)
    → is_counted op ≡ true
    → str_eq op.operation "recreatedownbridge" ≡ false
    → Triple (HasPending (suc n)) (HasPending n) (step op)
unfolding step unrecovered
step_counts op n h up = record {
  after = λ env s a p e.
      (operate_counts op n h up).after env s tt p (unrecovered_returned (operate op env s).0 e);
}
