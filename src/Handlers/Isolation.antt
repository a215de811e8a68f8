-- ===== src/Handlers/Isolation.antt =====
-- What a message of the resource manager (ovs/driver.go) leaves alone: the networks of other ids.
use dovesnap.Prelude.{String, true, false, ◌≡◌, refl, ◌∙◌, arith, str_eq}
use dovesnap.Prelude.Map.{Map, string_key, lookup, insert, delete, lookup-insert, lookup-delete}
use dovesnap.System.{Env}
use dovesnap.State.{NetworkState}
use dovesnap.Manager.{Manager, DovesnapOp}
use dovesnap.Manager.Keeps.{Relation, Keeps, Calm, core_laws, keep_modify, keep_send}
use dovesnap.Handlers.Create.{store_network}
use dovesnap.Handlers.Delete.{forget_network}
use dovesnap.Handlers.Dispatch.{reconcile, step}
use dovesnap.Handlers.KeepsDispatch.{Allows, keep_step}

-- The entry of network `j` is the same.
abbrev pub SameEntry : String → Relation
SameEntry j s t = lookup j s.networks ≡ lookup j t.networks

other_insert :
    (k j : String) (v : NetworkState) (m : Map String NetworkState)
    → str_eq k j ≡ false
    → lookup j m ≡ lookup j (insert k v m)
other_insert k j v m h = ground (arith, lookup-insert k j v m)

other_delete :
    (k j : String) (m : Map String NetworkState)
    → str_eq k j ≡ false
    → lookup j m ≡ lookup j (delete k m)
other_delete k j m h = ground (arith, lookup-delete k j m)

module _ (j : String) where
  entry_laws : Calm (SameEntry j)
  entry_laws =
      core_laws (λ a b. lookup j a.networks ≡ lookup j b.networks) (λ a. refl) (λ a b c h k. h ∙ k)

  module _ (op : DovesnapOp) (other : str_eq op.network_id j ≡ false)
      (plain : str_eq op.operation "networks" ≡ false) where
    absurd : (str_eq op.operation "networks" ≡ true) → Keeps (SameEntry j) reconcile
    absurd h = cc

    entry_store : (ns : NetworkState) → Keeps (SameEntry j) (store_network op ns)
    unfolding store_network
    entry_store ns =
        keep_modify entry_laws _ (λ s. other_insert op.network_id j ns s.networks other)

    entry_forget : Keeps (SameEntry j) (forget_network op.network_id)
    unfolding forget_network
    entry_forget = keep_modify entry_laws _ (λ s. other_delete op.network_id j s.networks other)

    entry_effects : Allows (SameEntry j) op
    entry_effects = record {
      on_dynamic = record { written = λ s d _ _. other_insert op.network_id j _ s.networks other };
      on_taken = λ _ s x. refl;
      on_left = λ _ s. refl;
      on_store = λ _ name. entry_store _;
      on_forget = λ _. entry_forget;
      on_reply = λ r. keep_send entry_laws op r (λ s. refl);
      on_done = λ _ s k. refl;
      on_rounds = λ h. absurd h;
    }

-- A message about one network, other than "networks", leaves the entry of every other network
-- as it was, however the message ends.
pub step_isolated :
    (op : DovesnapOp) (j : String) (env : Env) (s : Manager)
    → str_eq op.network_id j ≡ false
    → str_eq op.operation "networks" ≡ false
    → lookup j s.networks ≡ lookup j (step op env s).1.networks
step_isolated op j env s other plain =
    (keep_step (entry_laws j) op (entry_effects j op other plain)).after env s
