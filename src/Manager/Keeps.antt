-- ===== src/Manager/Keeps.antt =====
-- Relations between the state of the resource manager (ovs/driver.go) before an action and after it.
use dovesnap.Prelude.{
  ℕ, zero, suc, String, Bool, true, false, Option, none, some, List, ◌∷◌, ◌≡◌, refl, sym,
  if◌then◌else◌,
}
use dovesnap.Prelude.Map.{Map, string_key, insert, delete}
use dovesnap.Outcome.{Outcome, returned, panicked, exited, blocked}
use dovesnap.System.{Env, Io, Call}
use dovesnap.State.{
  NetworkState, DynamicNetworkState, ContainerState, StackMirrorConfig, ExternalPortState,
  OtherBridgePortState, OfPortContainer,
}
use dovesnap.Ports.{PortDesc}
use dovesnap.Manager.{
  M, Manager, DovesnapOp, OpReply, NotifyMsg, continue, pure, panic, fatal, io, gets, modify,
  get_network, get_mirror_config, write_dynamic, delete_dynamic, write_external, write_other_bridge,
  write_container, notify, wait_group_done, zero_network, deferred, deferred_after, send_reply,
  ◌>>=◌,
}

abbrev pub Relation : Type 1
Relation = Manager → Manager → Type 0

-- However the action ends, the states before and after it are related.
pub record Keeps {ℓ} {A : Type ℓ} (R : Relation) (m : M A) : Type 0 where
  pub after : (env : Env) (s : Manager) → R s (m env s).1

-- What every effect but those on the networks, mirrors, replies and the counter does.
pub record Calm (R : Relation) : Type 0 where
  pub same : (s : Manager) → R s s
  pub compose : (s t u : Manager) → R s t → R t u → R s u
  pub on_calls : (s : Manager) (h : List Call) → R s (record s { calls = h })
  pub on_notices : (s : Manager) (n : List NotifyMsg) → R s (record s { notices = n })
  pub on_desc : (s : Manager) (p : Map String PortDesc) → R s (record s { all_port_desc = p })
  pub on_mtime : (s : Manager) (m : String) → R s (record s { last_dhcp_mtime = m })

-- What a relation may depend on.
pub record Core : Type 0 where
  pub networks : Map String NetworkState
  pub stack_mirror_configs : Map String StackMirrorConfig
  pub of_ports : Map String OfPortContainer
  pub pending : ℕ
  pub queue : List DovesnapOp
  pub replies : List OpReply

abbrev pub core : Manager → Core
core s = record {
  networks = s.networks;
  stack_mirror_configs = s.stack_mirror_configs;
  of_ports = s.of_ports;
  pending = s.pending;
  queue = s.queue;
  replies = s.replies;
}

pub core_laws :
    (Q : Core → Core → Type 0)
    → ((a : Core) → Q a a)
    → ((a b c : Core) → Q a b → Q b c → Q a c)
    → Calm (λ s t. Q (core s) (core t))
core_laws Q same compose = record {
  same = λ s. same (core s);
  compose = λ s t u. compose (core s) (core t) (core u);
  on_calls = λ s _. same (core s);
  on_notices = λ s _. same (core s);
  on_desc = λ s _. same (core s);
  on_mtime = λ s _. same (core s);
}

-- The writes to `OFPorts` at one endpoint.
abbrev pub OnTaken : Relation → String → Type 0
OnTaken R endpoint_id =
    (s : Manager) (x : OfPortContainer)
    → R s (record s { of_ports = insert endpoint_id x s.of_ports })

abbrev pub OnLeft : Relation → String → Type 0
OnLeft R endpoint_id = (s : Manager) → R s (record s { of_ports = delete endpoint_id s.of_ports })

-- A write to the shared maps of network `id`, which has them.
pub record OnDynamic (R : Relation) (id : String) : Type 0 where
  pub written :
      (s : Manager) (d : DynamicNetworkState)
      → (zero_network id s).dynamic.made ≡ true
      → d.made ≡ true
      → R s (record s {
        networks = insert id (record (zero_network id s) { dynamic = d }) s.networks;
      })

module _ {R : Relation} (c : Calm R) where
  continue-Keeps {ℓ κ} :
      {A : Type ℓ} {B : Type κ} (f : A → M B) (env : Env) (s t : Manager) (o : Outcome A)
      → R s t
      → ((a : A) → Keeps R (f a))
      → R s (continue o f env t).1
  continue-Keeps f env s t (returned a) h k = c.compose s t (f a env t).1 h ((k a).after env t)
  continue-Keeps f env s t (panicked m) h k = h
  continue-Keeps f env s t (exited m) h k = h
  continue-Keeps f env s t blocked h k = h

  pub keep_bind {ℓ κ} :
      {A : Type ℓ} {B : Type κ} {m : M A} {f : A → M B}
      → Keeps R m
      → ((a : A) → Keeps R (f a))
      → Keeps R (m >>= f)
  keep_bind {m} {f} h k = record {
    after = λ env s. continue-Keeps f env s (m env s).1 (m env s).0 (h.after env s) k;
  }

  pub keep_pure {ℓ} : {A : Type ℓ} (a : A) → Keeps R (pure a)
  unfolding pure
  keep_pure a = record { after = λ env s. c.same s }

  pub keep_panic {ℓ} : {A : Type ℓ} (m : String) → Keeps R (panic {A = A} m)
  unfolding panic
  keep_panic m = record { after = λ env s. c.same s }

  pub keep_fatal {ℓ} : {A : Type ℓ} (m : String) → Keeps R (fatal {A = A} m)
  unfolding fatal
  keep_fatal m = record { after = λ env s. c.same s }

  pub keep_gets {ℓ} : {A : Type ℓ} (f : Manager → A) → Keeps R (gets f)
  unfolding gets
  keep_gets f = record { after = λ env s. c.same s }

  pub keep_io {ℓ} : {A : Type ℓ} (m : Io A) → Keeps R (io m)
  unfolding io
  keep_io m = record { after = λ env s. c.on_calls s (m env s.calls).1 }

  pub keep_notify : (n : NotifyMsg) → Keeps R (notify n)
  unfolding notify modify
  keep_notify n = record { after = λ env s. c.on_notices s (n ∷ s.notices) }

  pub keep_modify : (f : Manager → Manager) → ((s : Manager) → R s (f s)) → Keeps R (modify f)
  unfolding modify
  keep_modify f h = record { after = λ env s. h s }

  pub keep_if {ℓ} :
      {A : Type ℓ} (b : Bool) {m k : M A} → Keeps R m → Keeps R k → Keeps R (if b then m else k)
  keep_if true h k = h
  keep_if false h k = k

  pub keep_send :
      (op : DovesnapOp) (r : OpReply)
      → ((s : Manager) → R s (record s { replies = r ∷ s.replies }))
      → Keeps R (send_reply op r)
  unfolding send_reply
  keep_send op r h =
      keep_if op.reply {k = λ env s. (blocked, s)} (keep_modify _ h)
        (record { after = λ env s. c.same s })

  pub keep_option {ℓ κ} :
      {A : Type ℓ} {B : Type κ} (o : Option A) (m : M B) (f : A → M B)
      → Keeps R m
      → ((a : A) → Keeps R (f a))
      → Keeps R (elim o [ none ↦ m | some a ↦ f a ])
  keep_option none m f h k = h
  keep_option (some a) m f h k = k a

  after_deferred :
      (finally : M (Unit {0})) (env : Env) (s t : Manager) (o : Outcome (Unit {0}))
      → Keeps R finally
      → R s t
      → R s (deferred_after o finally env t).1
  unfolding deferred_after
  after_deferred finally env s t (returned a) k h =
      c.compose s t (finally env t).1 h (k.after env t)
  after_deferred finally env s t (panicked m) k h =
      c.compose s t (finally env t).1 h (k.after env t)
  after_deferred finally env s t (exited m) k h = h
  after_deferred finally env s t blocked k h = h

  pub keep_deferred :
      {finally body : M (Unit {0})}
      → Keeps R finally
      → Keeps R body
      → Keeps R (deferred finally body)
  unfolding deferred
  keep_deferred {finally} {body} k h = record {
    after = λ env s. after_deferred finally env s (body env s).1 (body env s).0 k (h.after env s);
  }

  done_case :
      (n : ℕ)
      → ((s : Manager) (k : ℕ) → R s (record s { pending = k }))
      → Keeps R (elim n [
        | zero ↦ fatal {A = Unit {0}} "sync: negative WaitGroup counter"
        | suc k ↦ modify (λ s. record s { pending = k })
      ])
  done_case zero h = keep_fatal _
  done_case (suc k) h = keep_modify _ (λ s. h s k)

  pub keep_done : ((s : Manager) (k : ℕ) → R s (record s { pending = k })) → Keeps R wait_group_done
  unfolding wait_group_done
  keep_done h = keep_bind (keep_gets _) (λ n. done_case n h)

  pub keep_network : (id : String) → Keeps R (get_network id)
  unfolding get_network gets
  keep_network id = record { after = λ env s. c.same s }

  pub keep_mirror : (id : String) → Keeps R (get_mirror_config id)
  unfolding get_mirror_config gets
  keep_mirror id = record { after = λ env s. c.same s }

  made-step : {a b : Bool} → a ≡ b → b ≡ true → a ≡ true
  made-step h k = cc

  module _ {id : String} (w : OnDynamic R id) where
    if_made :
        (f : DynamicNetworkState → DynamicNetworkState) (otherwise : M (Unit {0})) (env : Env)
        (s : Manager) (b : Bool)
        → b ≡ (zero_network id s).dynamic.made
        → ((d : DynamicNetworkState) → (f d).made ≡ d.made)
        → Keeps R otherwise
        → R s
            ((if b
                then modify (λ t. record t {
                  networks =
                      insert id
                        (record (zero_network id s) { dynamic = f (zero_network id s).dynamic })
                        t.networks;
                })
                else otherwise)
              env s).1
    unfolding modify
    if_made f otherwise env s true h g k =
        w.written s (f (zero_network id s).dynamic) (sym h)
          (made-step (g (zero_network id s).dynamic) (sym h))
    if_made f otherwise env s false h g k = k.after env s

    pub keep_write :
        (f : DynamicNetworkState → DynamicNetworkState)
        → ((d : DynamicNetworkState) → (f d).made ≡ d.made)
        → Keeps R (write_dynamic id f)
    unfolding write_dynamic get_network gets
    keep_write f g = record { after = λ env s. if_made f _ env s _ refl g (keep_panic _) }

    pub keep_delete :
        (f : DynamicNetworkState → DynamicNetworkState)
        → ((d : DynamicNetworkState) → (f d).made ≡ d.made)
        → Keeps R (delete_dynamic id f)
    unfolding delete_dynamic get_network gets
    keep_delete f g = record { after = λ env s. if_made f _ env s _ refl g (keep_pure _) }

    pub keep_external :
        (name : String) (port : ExternalPortState) → Keeps R (write_external id name port)
    unfolding write_external
    keep_external name port = keep_write _ (λ d. refl)

    pub keep_other :
        (name : String) (port : OtherBridgePortState) → Keeps R (write_other_bridge id name port)
    unfolding write_other_bridge
    keep_other name port = keep_write _ (λ d. refl)

    pub keep_container :
        (endpoint : String) (x : ContainerState) → Keeps R (write_container id endpoint x)
    unfolding write_container
    keep_container endpoint x = keep_write _ (λ d. refl)
