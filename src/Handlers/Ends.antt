-- ===== src/Handlers/Ends.antt =====
-- What holds where handlers of ovs/driver.go return: after a deletion, and after the operation
-- "recreatedownbridge" of restoreNetworks.
use dovesnap.Prelude.{
  ℕ, zero, suc, String, Bool, true, false, none, ◌∷◌, ◌≡◌, ◌≢◌, refl, ◌∙◌, if◌then◌else◌,
}
use dovesnap.Prelude.Map.{string_key, lookup, lookup-delete_self}
use dovesnap.Outcome.{Outcome, returned, panicked, exited, blocked}
use dovesnap.System.{Env}
use dovesnap.Manager.{
  M, Manager, DovesnapOp, empty_reply, send_reply, wait_group_done, deferred, deferred_after, gets,
  fatal, modify,
}
use dovesnap.Manager.Keeps.{
  Keeps, Calm, core_laws, keep_bind, keep_done, keep_gets, keep_io, keep_network, keep_notify,
  keep_send,
}
use dovesnap.Manager.Triples.{Triple, rule_of_keeping, modify_rule, bind_rule}
use dovesnap.Handlers.Create.{create_network_body, must_handle_create_network}
use dovesnap.Handlers.Delete.{forget_network, delete_network_body, must_handle_delete_network}
use dovesnap.Handlers.Release.{counter_create, counter_delete, done_counts}
use dovesnap.Handlers.Dispatch.{driver_init_bridge, recreate_down_bridge}
use dovesnap.Handlers.KeepsNetwork.{keep_delete_nat}

abbrev IsForgotten : String → Manager → Type 0
IsForgotten id s = (lookup id s.networks ≡ none) × (lookup id s.stack_mirror_configs ≡ none)

abbrev IsAny : Manager → Type 0
IsAny s = Unit

free_laws : Calm (λ s t. IsAny s → IsAny t)
free_laws = record {
  same = λ s h. h;
  compose = λ s t u h k x. k (h x);
  on_calls = λ s _ h. h;
  on_notices = λ s _ h. h;
  on_desc = λ s _ h. h;
  on_mtime = λ s _ h. h;
}

gone_laws : (id : String) → Calm (λ s t. IsForgotten id s → IsForgotten id t)
gone_laws id = record {
  same = λ s h. h;
  compose = λ s t u h k x. k (h x);
  on_calls = λ s _ h. h;
  on_notices = λ s _ h. h;
  on_desc = λ s _ h. h;
  on_mtime = λ s _ h. h;
}

forgets : (id : String) → Triple IsAny (IsForgotten id) (forget_network id)
unfolding forget_network
forgets id =
    modify_rule _
      (λ s _. (lookup-delete_self id s.networks, lookup-delete_self id s.stack_mirror_configs))

delete_body_forgets :
    (op : DovesnapOp) → Triple IsAny (IsForgotten op.network_id) (delete_network_body op)
unfolding delete_network_body
delete_body_forgets op = bind_rule (rule_of_keeping (keep_network free_laws _)) (λ ns.
    bind_rule (rule_of_keeping (keep_io free_laws _)) (λ _.
      bind_rule (rule_of_keeping (keep_delete_nat free_laws ns)) (λ _.
        bind_rule (rule_of_keeping (keep_gets free_laws _)) (λ d.
          bind_rule (rule_of_keeping (keep_io free_laws _)) (λ _.
            bind_rule (forgets op.network_id) (λ _.
              bind_rule (rule_of_keeping (keep_send (gone_laws op.network_id) op _ (λ s h. h)))
                (λ _. rule_of_keeping (keep_notify (gone_laws op.network_id) _))))))))

unknown_done : (id : String) → Keeps (λ s t. IsForgotten id s → IsForgotten id t) wait_group_done
unknown_done id = keep_done (gone_laws id) (λ s k h. h)

unknown_after :
    (id : String) (o : Outcome (Unit {0})) (env : Env) (t : Manager)
    → IsForgotten id t
    → IsForgotten id (deferred_after o wait_group_done env t).1
unfolding deferred_after
unknown_after id (returned _) env t h = (unknown_done id).after env t h
unknown_after id (panicked _) env t h = (unknown_done id).after env t h
unknown_after id (exited _) env t h = h
unknown_after id blocked env t h = h

-- Where the body of a deletion returns, the network has neither a state nor a mirror configuration.
pub delete_forgets :
    (op : DovesnapOp) (env : Env) (s : Manager)
    → (delete_network_body op env s).0 ≡ returned tt
    → (lookup op.network_id (must_handle_delete_network op env s).1.networks ≡ none)
      × (lookup op.network_id (must_handle_delete_network op env s).1.stack_mirror_configs ≡ none)
unfolding must_handle_delete_network deferred
delete_forgets op env s h =
    unknown_after op.network_id (delete_network_body op env s).0 env
      (delete_network_body op env s).1 ((delete_body_forgets op).after env s tt tt h)

abbrev IsImpossible : Manager → Type 0
IsImpossible s = ⊥

abbrev pub HasPending : ℕ → Manager → Type 0
HasPending n s = s.pending ≡ n

pub pending_laws : (n : ℕ) → Calm (λ s t. HasPending n s → HasPending n t)
pending_laws n =
    core_laws (λ a b. a.pending ≡ n → b.pending ≡ n) (λ a h. h) (λ a b c h k x. k (h x))

no_reply :
    (op : DovesnapOp) → op.reply ≡ false → Triple IsAny IsImpossible (send_reply op empty_reply)
unfolding send_reply
no_reply op h = record { after = λ env s a _ e. go env s a op.reply h e }
  where
    go :
        (env : Env) (s : Manager) (a : Unit {0}) (b : Bool)
        → b ≡ false
        → ((if b
              then modify (λ t. record t { replies = empty_reply ∷ t.replies })
              else (λ env t. (blocked, t)))
            env s).0
          ≡ returned a
        → ⊥
    go env s a true h e = cc
    go env s a false h e = cc

always_forget : (id : String) → Triple IsAny IsAny (forget_network id)
unfolding forget_network
always_forget id = modify_rule _ (λ s _. tt)

delete_never :
    (op : DovesnapOp) → op.reply ≡ false → Triple IsAny IsImpossible (delete_network_body op)
unfolding delete_network_body
delete_never op h = bind_rule (rule_of_keeping (keep_network free_laws _)) (λ ns.
    bind_rule (rule_of_keeping (keep_io free_laws _)) (λ _.
      bind_rule (rule_of_keeping (keep_delete_nat free_laws ns)) (λ _.
        bind_rule (rule_of_keeping (keep_gets free_laws _)) (λ d.
          bind_rule (rule_of_keeping (keep_io free_laws _)) (λ _.
            bind_rule (always_forget op.network_id)
              (λ _. bind_rule (no_reply op h) (λ _. record { after = λ env s a x _. x })))))))

ended_delete :
    (o : Outcome (Unit {0})) (env : Env) (t : Manager) {a : Unit {0}}
    → (o ≡ returned tt → ⊥)
    → t.pending ≡ 1
    → (deferred_after o wait_group_done env t).0 ≡ returned a
    → (deferred_after o wait_group_done env t).1.pending ≡ 0
unfolding deferred_after
ended_delete (returned _) env t h p e = elim (h refl) [ ]
ended_delete (panicked _) env t h p e = (done_counts env t 0 p).1
ended_delete (exited _) env t h p e = cc
ended_delete blocked env t h p e = cc

failed :
    (m : String) (env : Env) (t : Manager) {a : Unit {0}}
    → (fatal {A = Unit {0}} m env t).0 ≡ returned a
    → ⊥
unfolding fatal
failed m env t e = cc

done_at_zero :
    (env : Env) (t : Manager) {a : Unit {0}}
    → t.pending ≡ 0
    → (wait_group_done env t).0 ≡ returned a
    → ⊥
unfolding wait_group_done gets
done_at_zero env t h e = go t.pending h e
  where
    go :
        (n : ℕ) {a : Unit {0}}
        → n ≡ 0
        → ((elim n as (λ _. M (Unit {0})) [
          | zero ↦ fatal "sync: negative WaitGroup counter"
          | suc j ↦ modify (λ t. record t { pending = j })
        ])
            env t).0
          ≡ returned a
        → ⊥
    go zero h e = failed _ env t e
    go (suc j) h e = cc

ended_create :
    (o : Outcome (Unit {0})) (env : Env) (t : Manager) {a : Unit {0}}
    → t.pending ≡ 0
    → (deferred_after o wait_group_done env t).0 ≡ returned a
    → ⊥
unfolding deferred_after
ended_create (returned _) env t p e = done_at_zero env t p e
ended_create (panicked _) env t p e = done_at_zero env t p e
ended_create (exited _) env t p e = cc
ended_create blocked env t p e = cc

handled_delete :
    (op : DovesnapOp)
    → op.reply ≡ false
    → Triple (HasPending 1) (HasPending 0) (must_handle_delete_network op)
unfolding must_handle_delete_network deferred
handled_delete op h = record {
  after = λ env s a p e.
      ended_delete (delete_network_body op env s).0 env (delete_network_body op env s).1
        (λ x. (delete_never op h).after env s tt tt x) ((counter_delete op).after env s ∙ p) e;
}

handled_create :
    (op : DovesnapOp) → Triple (HasPending 0) IsImpossible (must_handle_create_network op)
unfolding must_handle_create_network deferred
handled_create op = record {
  after = λ env s a p e.
      ended_create (create_network_body op env s).0 env (create_network_body op env s).1
        ((counter_create op).after env s ∙ p) e;
}

init_keeps_zero : (op : DovesnapOp) → Triple (HasPending 0) (HasPending 0) (driver_init_bridge op)
unfolding driver_init_bridge
init_keeps_zero op =
    rule_of_keeping
      (keep_bind (pending_laws 0) (keep_gets (pending_laws 0) _) (λ d. keep_io (pending_laws 0) _))

-- The operation "recreatedownbridge" of restoreNetworks, whose message has no reply channel and has
-- added one to the counter, does not return: it waits forever or ends the process.
pub down_bridge_never_returns :
    (op : DovesnapOp) (env : Env) (s : Manager)
    → op.reply ≡ false
    → s.pending ≡ 1
    → (recreate_down_bridge op env s).0 ≢ returned tt
unfolding recreate_down_bridge
down_bridge_never_returns op env s h p e =
    (bind_rule (bind_rule (handled_delete op h) (λ _. init_keeps_zero op))
        (λ _. handled_create op)).after
      env s tt p e
