-- ===== src/Driver/Refines.antt =====
-- Runs of ovs/driver.go, seen as changes of the registry of its networks and endpoints.
use dovesnap.Prelude.{
  String, true, false, some, List, [], ◌∷◌, ◌++◌, ◌≡◌, refl, arith, eq_iff, All, All-append,
}
use dovesnap.Prelude.Map.{
  Map, string_key, lookup, insert, delete, has, lookup-insert, lookup-delete,
}
use dovesnap.System.{Env}
use dovesnap.Manager.{M, Manager, DovesnapOp}
use dovesnap.Manager.Keeps.{
  Relation, Keeps, Calm, OnDynamic, core_laws, keep_bind, keep_modify, keep_send,
}
use dovesnap.Plugin.{PluginRequest, serve}
use dovesnap.Plugin.Keeps.{keep_serve}
use dovesnap.Handlers.Create.{store_network}
use dovesnap.Handlers.Delete.{forget_network}
use dovesnap.Handlers.Dispatch.{reconcile, step, tick, unrecovered}
use dovesnap.Handlers.KeepsDispatch.{Allows, keep_step}
use dovesnap.Handlers.KeepsReconcile.{keep_reconcile_ovs, keep_reconcile_dhcp_ip}
use dovesnap.Handlers.WellFormed.{known}
use dovesnap.Driver.{request, message, timer, Reaches, here, onward, taken}
use dovesnap.Driver.Registry.{
  Act, know, forget, reserve, release, put, act, replay, Permits, creates, deletes, takes, leaves,
  registry, IsSame, IsSame-refl, IsSame-trans, joined,
}

module _ {V : Type 0} where
  put-insert :
      (k j : String) (v : V) (m : Map String V) → put k true (λ i. has i m) j ≡ has j (insert k v m)
  put-insert k j v m = ground (arith, lookup-insert k j v m)

  put-delete : (k j : String) (m : Map String V) → put k false (λ i. has i m) j ≡ has j (delete k m)
  put-delete k j m = ground (arith, lookup-delete k j m)

  has_again :
      (k j : String) (v w : V) (m : Map String V)
      → lookup k m ≡ some w
      → has j m ≡ has j (insert k v m)
  has_again k j v w m h = ground (arith, lookup-insert k j v m, eq_iff k j, h)

-- The registry is the same.
abbrev SameRegistry : Relation
SameRegistry s t = IsSame (registry s) (registry t)

silent_laws : Calm SameRegistry
unfolding registry
silent_laws =
    core_laws
      (λ a b.
        IsSame (record { known = λ id. has id a.networks; reserved = λ id. has id a.of_ports })
          (record { known = λ id. has id b.networks; reserved = λ id. has id b.of_ports }))
      (λ a. IsSame-refl _) (λ a b c h k. IsSame-trans _ _ _ h k)

silent_dynamic : (id : String) → OnDynamic SameRegistry id
unfolding registry
silent_dynamic id = record {
  written = λ s d made _.
      let found = known id s.networks made in
      record { known = λ j. has_again id j _ found.0 s.networks found.1; reserved = λ j. refl };
}

silent_reconcile : Keeps SameRegistry reconcile
unfolding reconcile
silent_reconcile =
    keep_bind silent_laws (keep_reconcile_ovs silent_laws silent_dynamic)
      (λ _. keep_reconcile_dhcp_ip silent_laws silent_dynamic)

silent_tick : Keeps SameRegistry tick
unfolding tick unrecovered
silent_tick = record { after = λ env s. silent_reconcile.after env s }

silent_serve : (r : PluginRequest) → Keeps SameRegistry (serve r)
unfolding registry
silent_serve r = keep_serve silent_laws (λ s k. IsSame-refl _) (λ s q. IsSame-refl _) r

-- Acts that the message permits lead from the one registry to the other.
pub record Refines (op : DovesnapOp) (s t : Manager) : Type 0 where
  pub acts : List Act
  pub permitted : All (Permits op) acts
  pub replayed : IsSame (replay acts (registry s)) (registry t)

module _ (op : DovesnapOp) where
  silently : (s t : Manager) → SameRegistry s t → Refines op s t
  unfolding replay
  silently s t h = record { acts = []; permitted = tt; replayed = h }

  by_one :
      (s t : Manager) (a : Act)
      → Permits op a
      → IsSame (act a (registry s)) (registry t)
      → Refines op s t
  unfolding replay
  by_one s t a p h = record { acts = a ∷ []; permitted = (p, tt); replayed = h }

  registry_laws : Calm (Refines op)
  unfolding registry
  registry_laws = record {
    same = λ s. silently s s (IsSame-refl _);
    compose = λ s t u h k. record {
      acts = h.acts ++ k.acts;
      permitted = All-append (Permits op) h.acts k.acts h.permitted k.permitted;
      replayed = joined h.acts k.acts (registry s) (registry t) (registry u) h.replayed k.replayed;
    };
    on_calls = λ s _. silently s _ (IsSame-refl _);
    on_notices = λ s _. silently s _ (IsSame-refl _);
    on_desc = λ s _. silently s _ (IsSame-refl _);
    on_mtime = λ s _. silently s _ (IsSame-refl _);
  }

  silently_kept {ℓ} : {A : Type ℓ} {m : M A} → Keeps SameRegistry m → Keeps (Refines op) m
  silently_kept h = record { after = λ env s. silently s _ (h.after env s) }

  registry_effects : Allows (Refines op) op
  unfolding store_network forget_network act registry
  registry_effects = record {
    on_dynamic = record {
      written = λ s d made k. silently s _ ((silent_dynamic op.network_id).written s d made k);
    };
    on_taken = λ h s x.
        by_one s _ (reserve op.endpoint_id) (takes h)
          (record { known = λ j. refl; reserved = λ j. put-insert op.endpoint_id j x s.of_ports });
    on_left = λ h s.
        by_one s _ (release op.endpoint_id) (leaves h)
          (record { known = λ j. refl; reserved = λ j. put-delete op.endpoint_id j s.of_ports });
    on_store = λ h name. keep_modify registry_laws _ (λ s.
        by_one s _ (know op.network_id) (creates h)
          (record { known = λ j. put-insert op.network_id j _ s.networks; reserved = λ j. refl }));
    on_forget = λ h. keep_modify registry_laws _ (λ s.
        by_one s _ (forget op.network_id) (deletes h)
          (record { known = λ j. put-delete op.network_id j s.networks; reserved = λ j. refl }));
    on_reply = λ r. keep_send registry_laws op r (λ s. silently s _ (IsSame-refl _));
    on_done = λ h s k. silently s _ (IsSame-refl _);
    on_rounds = λ h. silently_kept silent_reconcile;
  }

-- A message, however it ends, changes the registry of known networks and reserved endpoints by
-- acts that its operation permits: a creation makes its own network known, a deletion forgets
-- it, joining and reserving a port reserve the message's own endpoint, leaving releases it, and
-- no other operation changes the registry.
pub step-Refines : (op : DovesnapOp) (env : Env) (s : Manager) → Refines op s (step op env s).1
step-Refines op = (keep_step (registry_laws op) op (registry_effects op)).after

-- The messages that a run handles, in their order.
unfoldable pub handled : (s t : Manager) → Reaches s t → List DovesnapOp
handled s _ (here _) = []
handled s u (onward _ t _ (request r env _ e) rest) = handled t u rest
handled s u (onward _ t _ (message op ops env _ h e) rest) = op ∷ handled t u rest
handled s u (onward _ t _ (timer env _ e) rest) = handled t u rest

-- Acts of messages, one message after the other.
pub data Follows : List DovesnapOp → List Act → Type 0 where
  none_left : Follows [] []
  one_more :
      (op : DovesnapOp) (ops : List DovesnapOp) (l k : List Act)
      → All (Permits op) l
      → Follows ops k
      → Follows (op ∷ ops) (l ++ k)

-- A run of the driver, with requests, messages and rounds of the timer, changes the registry as a replay of
-- acts does that the messages which it handles permit, in the order of the messages.
pub run_refines :
    (s t : Manager) (r : Reaches s t)
    → (acts : List Act) × Follows (handled s t r) acts
      × IsSame (replay acts (registry s)) (registry t)
unfolding handled replay registry
run_refines s _ (here _) = ([], none_left, IsSame-refl _)
run_refines s u (onward _ t _ (request q env _ e) rest) =
    let later = run_refines t u rest in
    (
      later.0,
      later.1,
      joined [] later.0 (registry s) (registry t) (registry u) ((silent_serve q).after env s)
          later.2,
    )
run_refines s u (onward _ t _ (timer env _ e) rest) =
    let later = run_refines t u rest in
    (
      later.0,
      later.1,
      joined [] later.0 (registry s) (registry t) (registry u) (silent_tick.after env s) later.2,
    )
run_refines s u (onward _ t _ (message op ops env _ h e) rest) =
    let later = run_refines t u rest in
    let first = step-Refines op env (taken ops s) in
    (
      first.acts ++ later.0,
      one_more op (handled t u rest) first.acts later.0 first.permitted later.1,
      joined first.acts later.0 (registry s) (registry t) (registry u) first.replayed later.2,
    )
