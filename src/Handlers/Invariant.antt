-- ===== src/Handlers/Invariant.antt =====
-- The invariant of the resource manager's maps (ovs/driver.go), over messages and rounds of the timer.
use dovesnap.Prelude.{true, ◌≡◌}
use dovesnap.System.{Env}
use dovesnap.Manager.{Manager, DovesnapOp, OpReply, send_reply}
use dovesnap.Manager.Keeps.{Keeps, keep_bind, keep_send}
use dovesnap.Handlers.Dispatch.{reconcile, step, tick, unrecovered}
use dovesnap.Handlers.KeepsDispatch.{Allows, is_creating, keep_step}
use dovesnap.Handlers.KeepsReconcile.{keep_reconcile_ovs, keep_reconcile_dhcp_ip}
use dovesnap.Handlers.WellFormed.{
  IsWellFormed, Preserves, preserves_laws, preserves_dynamic, preserves_store, preserves_forget,
}

preserves_reply : (op : DovesnapOp) (r : OpReply) → Keeps Preserves (send_reply op r)
unfolding IsWellFormed
preserves_reply op r = keep_send preserves_laws op r (λ s h. h)

preserves_reconcile : Keeps Preserves reconcile
unfolding reconcile
preserves_reconcile =
    keep_bind preserves_laws (keep_reconcile_ovs preserves_laws preserves_dynamic)
      (λ _. keep_reconcile_dhcp_ip preserves_laws preserves_dynamic)

preserves_effects :
    (op : DovesnapOp)
    → ((is_creating op ≡ true) → op.new_network_state.dynamic.made ≡ true)
    → Allows Preserves op
unfolding IsWellFormed
preserves_effects op made = record {
  on_dynamic = preserves_dynamic op.network_id;
  on_taken = λ _ s x h. h;
  on_left = λ _ s h. h;
  on_store = λ h name. preserves_store op _ (made h);
  on_forget = λ _. preserves_forget op.network_id;
  on_reply = preserves_reply op;
  on_done = λ _ s k h. h;
  on_rounds = λ _. preserves_reconcile;
}

-- A message, whatever its operation and however it ends, keeps the maps well-formed: every known
-- network has its shared maps and a mirror configuration. The network state of a message that
-- creates a network must have its maps.
pub step_preserves :
    (op : DovesnapOp) (env : Env) (s : Manager)
    → ((is_creating op ≡ true) → op.new_network_state.dynamic.made ≡ true)
    → IsWellFormed s
    → IsWellFormed (step op env s).1
step_preserves op env s made = (keep_step preserves_laws op (preserves_effects op made)).after env s

-- A round of the timer keeps the maps well-formed.
pub tick_preserves : (env : Env) (s : Manager) → IsWellFormed s → IsWellFormed (tick env s).1
unfolding tick unrecovered
tick_preserves env s = preserves_reconcile.after env s

-- The states that the loop reaches from a first one, by messages and rounds of its timer.
pub data Reaches (env : Env) : Manager → Manager → Type 0 where
  here : (s : Manager) → Reaches env s s
  message :
      (op : DovesnapOp) (s t : Manager)
      → ((is_creating op ≡ true) → op.new_network_state.dynamic.made ≡ true)
      → Reaches env (step op env s).1 t
      → Reaches env s t
  timer : (s t : Manager) → Reaches env (tick env s).1 t → Reaches env s t

-- Every state that the loop reaches from a well-formed state, by any messages whose network states
-- have their maps where they create a network, and any rounds of the timer, is well-formed.
pub reaches_preserves :
    (env : Env) (s t : Manager) → Reaches env s t → IsWellFormed s → IsWellFormed t
reaches_preserves env s _ (here _) h = h
reaches_preserves env s t (message op _ _ made rest) h =
    reaches_preserves env (step op env s).1 t rest (step_preserves op env s made h)
reaches_preserves env s t (timer _ _ rest) h =
    reaches_preserves env (tick env s).1 t rest (tick_preserves env s h)
