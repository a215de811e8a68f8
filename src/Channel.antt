-- ===== src/Channel.antt =====
-- The channel of the resource manager and the counter of pending changes (`dovesnapOpChan` and
-- `createDeleteNetworkWG` of ovs/driver.go), as the goroutines of the plugin's requests use them.
pub mod Traffic
use dovesnap.Prelude.{
  ℕ, zero, suc, ◌+◌, Bool, true, false, none, List, [], ◌∷◌, ◌++◌, ◌≡◌, refl, ltb, length,
  if◌then◌else◌,
}
use dovesnap.Outcome.{Outcome, returned, panicked, exited, blocked, Result, ok, err}
use dovesnap.State.{zero_network_state, zero_stack_mirror_config}
use dovesnap.Manager.{M, Manager, DovesnapOp, gets, modify, ◌>>=◌}

abbrev pub chan_size : ℕ
chan_size = 64

-- Go's zero value of a `DovesnapOp`.
abbrev pub zero_message : DovesnapOp
zero_message = record {
  operation = "";
  new_network_state = zero_network_state;
  new_stack_mirror_config = zero_stack_mirror_config;
  add_ports = "";
  add_copro_ports = "";
  mode = "";
  network_id = "";
  endpoint_id = "";
  options = none;
  reply = false;
}

-- Nothing happens for as long as the goroutine waits.
unfoldable pub wait {ℓ} : {A : Type ℓ} → M A
wait env s = (blocked, s)

-- `d.dovesnapOpChan <- op`: where the buffer is full, the sender waits.
unfoldable pub send_message : DovesnapOp → M (Unit {0})
send_message op = do
  waiting ← gets (λ s. length s.queue)
  let send = modify (λ s. record s { queue = s.queue ++ (op ∷ []) })
  if ltb waiting chan_size then send else wait

-- `d.createDeleteNetworkWG.Add(1)`
unfoldable pub wait_group_add : M (Unit {0})
wait_group_add = modify (λ s. record s { pending = suc s.pending })

-- `d.createDeleteNetworkWG.Wait()`
unfoldable pub wait_group_wait : M (Unit {0})
wait_group_wait = do
  pending ← gets (λ s. s.pending)
  elim pending [ zero ↦ modify (λ s. s) | suc _ ↦ wait ]

-- `defer func() { if rerr := recover(); rerr != nil { err = ... } }()`
abbrev pub as_error {ℓ} : {A : Type ℓ} → Outcome A → Outcome (Result A)
as_error (returned a) = returned (ok a)
as_error (panicked m) = returned (err m)
as_error (exited m) = exited m
as_error blocked = blocked

unfoldable pub recovered {ℓ} : {A : Type ℓ} → M A → M (Result A)
recovered m env s = let r = m env s in (as_error r.0, r.1)
