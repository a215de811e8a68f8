-- ===== src/Manager.antt =====
-- The resource manager of ovs/driver.go: the messages that it takes from its channel, the state that
-- its handlers change, and the actions over that state. Handlers run one at a time, so an action
-- is a function of the state; a panic leaves the changes made before it.
pub mod Keeps
pub mod Triples
use dovesnap.Prelude.{
  ℕ, zero, suc, ◌+◌, ◌-◌, String, Bool, true, false, Option, none, some, List, [], ◌∷◌, ◌≡◌, refl,
  ◌==◌, if◌then◌else◌,
}
use dovesnap.Prelude.Map.{Map, string_key, lookup, insert, delete, get_or}
use dovesnap.Outcome.{Outcome, returned, panicked, exited, blocked}
use dovesnap.System.{Env, Io, Call}
use dovesnap.State.{
  NetworkState, DynamicNetworkState, ContainerState, ExternalPortState, OtherBridgePortState,
  StackMirrorConfig, OfPortContainer, PortMap, DriverConfig, zero_network_state,
  zero_stack_mirror_config,
}
use dovesnap.Ports.{PortDesc}

-- `DovesnapOp`. `options` holds the port maps of the options, where there are any; `reply` says
-- whether the message has a reply channel.
pub record DovesnapOp : Type 0 where
  pub operation : String
  pub new_network_state : NetworkState
  pub new_stack_mirror_config : StackMirrorConfig
  pub add_ports : String
  pub add_copro_ports : String
  pub mode : String
  pub network_id : String
  pub endpoint_id : String
  pub options : Option (List PortMap)
  pub reply : Bool

-- `DovesnapOpReply`: empty, with a network's state, or with the text of all networks.
pub data OpReply : Type 0 where
  empty_reply : OpReply
  network_reply : NetworkState → OpReply
  networks_reply : Map String NetworkState → OpReply

pub record NotifyMsg : Type 0 where
  pub network_state : NetworkState
  pub kind : String
  pub operation : String
  pub details : Map String String

-- The fields of `Driver` that handlers change, the local maps of `resourceManager`, the replies and
-- notices sent so far and the calls made so far, the newest first. `pending` is the counter of
-- `createDeleteNetworkWG`, `queue` the messages in `dovesnapOpChan`, the oldest first.
pub record Manager : Type 0 where
  pub config : DriverConfig
  pub networks : Map String NetworkState
  pub stack_mirror_configs : Map String StackMirrorConfig
  pub of_ports : Map String OfPortContainer
  pub all_port_desc : Map String PortDesc
  pub last_dhcp_mtime : String
  pub pending : ℕ
  pub queue : List DovesnapOp
  pub replies : List OpReply
  pub notices : List NotifyMsg
  pub calls : List Call

abbrev pub M {ℓ} : Type ℓ → Type ℓ
M A = Env → Manager → Outcome A × Manager

module _ {ℓ κ} {A : Type ℓ} {B : Type κ} where
  abbrev pub continue : Outcome A → (A → M B) → Env → Manager → Outcome B × Manager
  continue (returned a) f env s = f a env s
  continue (panicked m) f env s = (panicked m, s)
  continue (exited m) f env s = (exited m, s)
  continue blocked f env s = (blocked, s)

  infixl 10 ◌>>=◌ ◌>>◌
  abbrev pub ◌>>=◌ : M A → (A → M B) → M B
  ◌>>=◌ m f env s = let r = m env s in continue r.0 f env r.1

  abbrev pub ◌>>◌ : M A → M B → M B
  m >> k = m >>= λ _. k

module _ {ℓ} {A : Type ℓ} where
  unfoldable pub pure : A → M A
  pure a env s = (returned a, s)

  unfoldable pub panic : String → M A
  panic m env s = (panicked m, s)

  unfoldable pub fatal : String → M A
  fatal m env s = (exited m, s)

  -- A call of the world outside: of the state it changes the calls alone.
  unfoldable pub io : Io A → M A
  io m env s = let r = m env s.calls in (r.0, record s { calls = r.1 })

  unfoldable pub gets : (Manager → A) → M A
  gets f env s = (returned (f s), s)

unfoldable pub modify : (Manager → Manager) → M (Unit {0})
modify f env s = (returned tt, f s)

abbrev pub skip : M (Unit {0})
skip = pure tt

abbrev pub zero_network : String → Manager → NetworkState
zero_network id s = get_or id s.networks zero_network_state

-- `ns := d.networks[id]`, Go's zero value for an unknown id.
unfoldable pub get_network : String → M NetworkState
get_network id = gets (zero_network id)

unfoldable pub get_mirror_config : String → M StackMirrorConfig
get_mirror_config id = gets (λ s. get_or id s.stack_mirror_configs zero_stack_mirror_config)

abbrev pub get_config : M DriverConfig
get_config = gets (λ s. s.config)

-- A write to one of the maps that a copy of `d.networks[id]` shares: it panics on nil maps.
unfoldable pub write_dynamic : String → (DynamicNetworkState → DynamicNetworkState) → M (Unit {0})
write_dynamic id f = do
  ns ← get_network id
  let write =
      modify
        (λ s. record s { networks = insert id (record ns { dynamic = f ns.dynamic }) s.networks })
  if ns.dynamic.made then write else panic "assignment to entry in nil map"

-- `delete(ns.DynamicNetworkStates..., key)`: nothing happens to a nil map.
unfoldable pub delete_dynamic : String → (DynamicNetworkState → DynamicNetworkState) → M (Unit {0})
delete_dynamic id f = do
  ns ← get_network id
  let write =
      modify
        (λ s. record s { networks = insert id (record ns { dynamic = f ns.dynamic }) s.networks })
  if ns.dynamic.made then write else skip

unfoldable pub write_external : String → String → ExternalPortState → M (Unit {0})
write_external id name port =
    write_dynamic id (λ d. record d { external_ports = insert name port d.external_ports })

unfoldable pub write_other_bridge : String → String → OtherBridgePortState → M (Unit {0})
write_other_bridge id name port =
    write_dynamic id (λ d. record d { other_bridge_ports = insert name port d.other_bridge_ports })

unfoldable pub write_container : String → String → ContainerState → M (Unit {0})
write_container id endpoint c =
    write_dynamic id (λ d. record d { containers = insert endpoint c d.containers })

-- `opMsg.Reply <- r`: a send on a nil channel waits forever. A reply channel has room for two.
unfoldable pub send_reply : DovesnapOp → OpReply → M (Unit {0})
send_reply op r =
    let send = modify (λ s. record s { replies = r ∷ s.replies }) in
    let wait : M (Unit {0}) = λ env s. (blocked, s) in if op.reply then send else wait

-- `d.notifyMsgChan <- n`: `notifier` takes each message, so the send ends.
unfoldable pub notify : NotifyMsg → M (Unit {0})
notify n = modify (λ s. record s { notices = n ∷ s.notices })

-- `d.createDeleteNetworkWG.Done()`: a negative counter panics where nothing recovers.
unfoldable pub wait_group_done : M (Unit {0})
wait_group_done = do
  pending ← gets (λ s. s.pending)
  elim pending [
    | zero ↦ fatal "sync: negative WaitGroup counter"
    | suc k ↦ modify (λ s. record s { pending = k })
  ]

-- `defer func() { recover(); finally }()` around a body.
unfoldable pub deferred_after :
    Outcome (Unit {0}) → M (Unit {0}) → Env → Manager → Outcome (Unit {0}) × Manager
deferred_after (returned _) finally env s = finally env s
deferred_after (panicked _) finally env s = finally env s
deferred_after (exited m) finally env s = (exited m, s)
deferred_after blocked finally env s = (blocked, s)

unfoldable pub deferred : M (Unit {0}) → M (Unit {0}) → M (Unit {0})
deferred finally body env s = let r = body env s in deferred_after r.0 finally env r.1
