-- ===== src/Handlers/Release.antt =====
-- The counter of ovs/driver.go that Join and restoreNetworks wait for, and the reply that Leave waits
-- for.
use dovesnap.Prelude.{
  ℕ, zero, suc, String, Bool, true, false, ◌∷◌, ◌≡◌, refl, ap, ◌∙◌, if◌then◌else◌,
}
use dovesnap.Outcome.{Outcome, HasEnded, returned, panicked, exited, blocked}
use dovesnap.System.{Env}
use dovesnap.Manager.{
  M, Manager, DovesnapOp, empty_reply, send_reply, wait_group_done, gets, modify, fatal, deferred,
  deferred_after,
}
use dovesnap.Manager.Keeps.{Relation, Keeps, Calm, core_laws, OnDynamic, keep_modify, keep_send}
use dovesnap.Handlers.Create.{store_network, create_network_body, must_handle_create_network}
use dovesnap.Handlers.Delete.{forget_network, delete_network_body, must_handle_delete_network}
use dovesnap.Handlers.Endpoint.{leave_container_body, must_handle_leave_container}
use dovesnap.Handlers.Keeps.{keep_leave}
use dovesnap.Handlers.KeepsNetwork.{keep_create, keep_delete_network}

abbrev pub SameCounter : Relation
SameCounter s t = t.pending ≡ s.pending

counter_laws : Calm SameCounter
counter_laws = core_laws (λ a b. b.pending ≡ a.pending) (λ a. refl) (λ a b c h k. k ∙ h)

counter_dynamic : (id : String) → OnDynamic SameCounter id
counter_dynamic id = record { written = λ s d _ _. refl }

pub counter_create : (op : DovesnapOp) → Keeps SameCounter (create_network_body op)
unfolding store_network
counter_create op =
    keep_create counter_laws op (counter_dynamic op.network_id)
      (λ name. keep_modify counter_laws _ (λ s. refl))

pub counter_delete : (op : DovesnapOp) → Keeps SameCounter (delete_network_body op)
unfolding forget_network
counter_delete op =
    keep_delete_network counter_laws op (keep_modify counter_laws _ (λ s. refl))
      (keep_send counter_laws op _ (λ s. refl))

pub done_counts :
    (env : Env) (s : Manager) (k : ℕ)
    → s.pending ≡ suc k
    → ((wait_group_done env s).0 ≡ returned tt) × ((wait_group_done env s).1.pending ≡ k)
unfolding wait_group_done gets modify
done_counts env s k h = go s.pending h
  where
    go :
        (n : ℕ)
        → n ≡ suc k
        → (((elim n as (λ _. M (Unit {0})) [
          | zero ↦ fatal "sync: negative WaitGroup counter"
          | suc j ↦ modify (λ t. record t { pending = j })
        ])
              env s).0
            ≡ returned tt)
          × (((elim n as (λ _. M (Unit {0})) [
            | zero ↦ fatal "sync: negative WaitGroup counter"
            | suc j ↦ modify (λ t. record t { pending = j })
          ])
                env s).1.pending
              ≡ k)
    go zero e = cc
    go (suc j) e = (refl, cc)

done_after :
    (o : Outcome (Unit {0})) (env : Env) (t : Manager) (k : ℕ)
    → HasEnded o
    → t.pending ≡ suc k
    → ((deferred_after o wait_group_done env t).0 ≡ returned tt)
      × ((deferred_after o wait_group_done env t).1.pending ≡ k)
unfolding HasEnded deferred_after
done_after (returned _) env t k e h = done_counts env t k h
done_after (panicked _) env t k e h = done_counts env t k h
done_after (exited _) env t k e h = elim e [ ]
done_after blocked env t k e h = elim e [ ]

-- Where the counter is not 0, a creation whose body ends, by a panic as well, returns, and has taken
-- one from the counter, for which Join and restoreNetworks wait.
pub create_releases :
    (op : DovesnapOp) (env : Env) (s : Manager) (k : ℕ)
    → s.pending ≡ suc k
    → HasEnded (create_network_body op env s).0
    → ((must_handle_create_network op env s).0 ≡ returned tt)
      × ((must_handle_create_network op env s).1.pending ≡ k)
unfolding must_handle_create_network deferred
create_releases op env s k h e =
    done_after (create_network_body op env s).0 env (create_network_body op env s).1 k e
      ((counter_create op).after env s ∙ h)

-- Where the counter is not 0, a deletion whose body ends, by a panic as well, returns, and has taken
-- one from the counter.
pub delete_releases :
    (op : DovesnapOp) (env : Env) (s : Manager) (k : ℕ)
    → s.pending ≡ suc k
    → HasEnded (delete_network_body op env s).0
    → ((must_handle_delete_network op env s).0 ≡ returned tt)
      × ((must_handle_delete_network op env s).1.pending ≡ k)
unfolding must_handle_delete_network deferred
delete_releases op env s k h e =
    done_after (delete_network_body op env s).0 env (delete_network_body op env s).1 k e
      ((counter_delete op).after env s ∙ h)

abbrev SameReplies : Relation
SameReplies s t = t.replies ≡ s.replies

replies_laws : Calm SameReplies
replies_laws = core_laws (λ a b. b.replies ≡ a.replies) (λ a. refl) (λ a b c h k. k ∙ h)

replies_leave : (op : DovesnapOp) → Keeps SameReplies (leave_container_body op)
replies_leave op = keep_leave replies_laws op (λ s. refl) (record { written = λ s d _ _. refl })

reply_sent :
    (op : DovesnapOp) (env : Env) (s : Manager)
    → op.reply ≡ true
    → ((send_reply op empty_reply env s).0 ≡ returned tt)
      × ((send_reply op empty_reply env s).1.replies ≡ empty_reply ∷ s.replies)
unfolding send_reply modify
reply_sent op env s h = go op.reply h
  where
    go :
        (b : Bool)
        → b ≡ true
        → (((if b
                then modify (λ t. record t { replies = empty_reply ∷ t.replies })
                else (λ env t. (blocked, t)))
              env s).0
            ≡ returned tt)
          × (((if b
                  then modify (λ t. record t { replies = empty_reply ∷ t.replies })
                  else (λ env t. (blocked, t)))
                env s).1.replies
              ≡ empty_reply ∷ s.replies)
    go true e = (refl, refl)
    go false e = cc

reply_after :
    (o : Outcome (Unit {0})) (op : DovesnapOp) (env : Env) (t : Manager)
    → HasEnded o
    → op.reply ≡ true
    → ((deferred_after o (send_reply op empty_reply) env t).0 ≡ returned tt)
      × ((deferred_after o (send_reply op empty_reply) env t).1.replies ≡ empty_reply ∷ t.replies)
unfolding HasEnded deferred_after
reply_after (returned _) op env t e h = reply_sent op env t h
reply_after (panicked _) op env t e h = reply_sent op env t h
reply_after (exited _) op env t e h = elim e [ ]
reply_after blocked op env t e h = elim e [ ]

-- A container's leaving whose body ends, by a panic as well, returns, and has sent one reply, where
-- the message has a reply channel.
pub leave_replies :
    (op : DovesnapOp) (env : Env) (s : Manager)
    → op.reply ≡ true
    → HasEnded (leave_container_body op env s).0
    → ((must_handle_leave_container op env s).0 ≡ returned tt)
      × ((must_handle_leave_container op env s).1.replies ≡ empty_reply ∷ s.replies)
unfolding must_handle_leave_container deferred
leave_replies op env s h e =
    let r =
      reply_after (leave_container_body op env s).0 op env (leave_container_body op env s).1 e h in
    (r.0, r.1 ∙ ap (λ l. empty_reply ∷ l) ((replies_leave op).after env s))
