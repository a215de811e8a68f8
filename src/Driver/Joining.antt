-- ===== src/Driver/Joining.antt =====
-- What Join of ovs/driver.go may rely on, after its wait for the changes of networks.
use dovesnap.Prelude.{
  ℕ, zero, suc, String, Bool, true, false, Option, List, [], ◌∷◌, ◌≡◌, refl, sym, ap, ◌∙◌, arith,
  All, ◌++◌, ◌<◌, ltb, length, if◌then◌else◌,
}
use dovesnap.Prelude.Map.{string_key}
use dovesnap.Outcome.{returned}
use dovesnap.System.{Env, lift}
use dovesnap.State.{DriverConfig, NetworkState, PortMap}
use dovesnap.Config.{truncate_id}
use dovesnap.Links.{veth_pair}
use dovesnap.Manager.{
  M, Manager, DovesnapOp, continue, pure, io, gets, modify, get_network, zero_network, ◌>>=◌, ◌>>◌,
}
use dovesnap.Manager.Triples.{split_returned}
use dovesnap.Channel.{wait_group_wait, send_message, wait}
use dovesnap.Plugin.{join, join_message, JoinResponse, container_eth_name}
use dovesnap.Handlers.KeepsDispatch.{is_counted}
use dovesnap.Driver.{Reaches, started}
use dovesnap.Driver.Sound.{changes, weight_of, reached-IsSound}

abbrev pub AllUncounted : List DovesnapOp → Type 0
AllUncounted = All (λ op. is_counted op ≡ false)

no_changes : (l : List DovesnapOp) → changes l ≡ 0 → AllUncounted l
unfolding changes
no_changes [] h = tt
no_changes (op ∷ l) h = (light (is_counted op) refl, no_changes l (omega arith))
  where
    light : (b : Bool) → is_counted op ≡ b → b ≡ false
    light false e = refl
    light true e = let w = weight_of op true e in ground (arith, w, h)

waited :
    (env : Env) (s : Manager) {a : Unit {0}}
    → (wait_group_wait env s).0 ≡ returned a
    → (s.pending ≡ 0) × ((wait_group_wait env s).1 ≡ s)
unfolding wait_group_wait gets modify wait
waited env s e = go s.pending e
  where
    go :
        (n : ℕ) {a : Unit {0}}
        → ((elim n as (λ _. M (Unit {0})) [ zero ↦ modify (λ t. t) | suc _ ↦ wait ]) env s).0
          ≡ returned a
        → (n ≡ 0)
          × (((elim n as (λ _. M (Unit {0})) [ zero ↦ modify (λ t. t) | suc _ ↦ wait ]) env s).1
              ≡ s)
    go zero e = (refl, refl)
    go (suc n) e = cc

gateway_of :
    {answer : JoinResponse} {found ns : NetworkState} {src_name : String}
    → returned found ≡ returned ns
    → returned
        (record { src_name = src_name; dst_prefix = container_eth_name; gateway = ns.gateway })
      ≡ returned answer
    → answer.gateway ≡ found.gateway
gateway_of h e = cc

-- Join's body, after each of its parts.
abbrev named : String → String → Option (List PortMap) → NetworkState → String → M JoinResponse
named id endpoint options ns suffix =
    send_message (join_message id endpoint options)
    >> pure (record {
      src_name = (veth_pair suffix).1;
      dst_prefix = container_eth_name;
      gateway = ns.gateway;
    })

abbrev found : String → String → Option (List PortMap) → NetworkState → M JoinResponse
found id endpoint options ns = io (lift (truncate_id endpoint)) >>= named id endpoint options ns

-- In every state that the driver reaches from its start, a request to join that returns has found no
-- message in the channel that changes the networks, so that it reads a network whose changes have
-- been handled: the gateway of its answer is that of the network's entry.
pub join_after_changes :
    (d : DriverConfig) (s : Manager) (id endpoint : String) (options : Option (List PortMap))
    (env : Env) (answer : JoinResponse)
    → Reaches (started d) s
    → (join id endpoint options env s).0 ≡ returned answer
    → AllUncounted s.queue × (answer.gateway ≡ (zero_network id s).gateway)
unfolding join get_network gets pure
join_after_changes d s id endpoint options env answer reached e =
    let waiting =
      split_returned wait_group_wait (λ _. get_network id >>= found id endpoint options) env s e in
    let start = waited env s waiting.1 in
    let t = (wait_group_wait env s).1 in
    let read = split_returned (get_network id) (found id endpoint options) env t waiting.2 in
    let cut =
      split_returned (io (lift (truncate_id endpoint))) (named id endpoint options read.0) env t
        read.2 in
    let u = (io (lift (truncate_id endpoint)) env t).1 in
    let sent = split_returned (send_message (join_message id endpoint options)) _ env u cut.2 in
    (
      no_changes s.queue (sym (reached-IsSound d s reached).counted ∙ start.0),
      gateway_of read.1 sent.2 ∙ ap (λ x. (zero_network id x).gateway) start.1,
    )

changes_free : (l : List DovesnapOp) → AllUncounted l → changes l ≡ 0
unfolding changes
changes_free [] h = refl
changes_free (op ∷ l) h =
    let w = weight_of op false h.0 in let r = changes_free l h.1 in omega arith

wait_free : (env : Env) (s : Manager) → s.pending ≡ 0 → wait_group_wait env s ≡ (returned tt, s)
unfolding wait_group_wait gets modify wait
wait_free env s h = go s.pending h
  where
    go :
        (n : ℕ)
        → n ≡ 0
        → (elim n as (λ _. M (Unit {0})) [ zero ↦ modify (λ t. t) | suc _ ↦ wait ]) env s
          ≡ (returned tt, s)
    go zero h = refl
    go (suc n) h = cc

send_free :
    (op : DovesnapOp) (env : Env) (s : Manager)
    → length s.queue < 64
    → send_message op env s ≡ (returned tt, record s { queue = s.queue ++ (op ∷ []) })
unfolding send_message gets modify wait
send_free op env s h = go (ltb (length s.queue) 64) (ground (arith, h))
  where
    go :
        (b : Bool)
        → b ≡ true
        → (if b then modify (λ t. record t { queue = t.queue ++ (op ∷ []) }) else wait) env s
          ≡ (returned tt, record s { queue = s.queue ++ (op ∷ []) })
    go true h = refl
    go false h = cc

run_on {ℓ κ} :
    {A : Type ℓ} {B : Type κ} (m : M A) (f : A → M B) (env : Env) (s t : Manager) (a : A)
    → m env s ≡ (returned a, t)
    → (m >>= f) env s ≡ f a env t
run_on m f env s t a h = ap (λ r. continue r.0 f env r.1) h

-- In every state that the driver reaches from its start, where the channel has room and no message that
-- changes the networks, a request to join an endpoint whose id can be cut does not wait: it answers
-- with the names of the endpoint's interface and the network's gateway, and has put its message behind
-- those of the channel.
pub join_returns :
    (d : DriverConfig) (s : Manager) (id endpoint suffix : String) (options : Option (List PortMap))
    (env : Env)
    → Reaches (started d) s
    → AllUncounted s.queue
    → length s.queue < 64
    → truncate_id endpoint ≡ returned suffix
    → join id endpoint options env s ≡ (
      returned (record {
        src_name = (veth_pair suffix).1;
        dst_prefix = "eth";
        gateway = (zero_network id s).gateway;
      }),
      record s { queue = s.queue ++ (join_message id endpoint options ∷ []) },
    )
unfolding join get_network gets pure io
join_returns d s id endpoint suffix options env reached free room cut =
    let sound = reached-IsSound d s reached in
    run_on wait_group_wait (λ _. get_network id >>= found id endpoint options) env s s tt
      (wait_free env s (sound.counted ∙ changes_free s.queue free))
    ∙ (run_on (io (lift (truncate_id endpoint))) (named id endpoint options (zero_network id s)) env
          s s suffix (ap (λ o. (o, s)) cut)
        ∙ run_on (send_message (join_message id endpoint options)) _ env s _ tt
            (send_free (join_message id endpoint options) env s room))
