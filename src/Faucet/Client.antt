-- ===== src/Faucet/Client.antt =====
-- mustGetGRPCClient of ovs/ovs_faucetconfrpc.go: the client's certificates, and the connection with
-- its retries.
use native.Mathlib.Nat.{pow-suc, pow-le-pow_right}
use dovesnap.Prelude.{
  ℕ, zero, suc, ◌+◌, ◌-◌, ◌*◌, ◌%◌, ◌^◌, ◌≤◌, ◌<◌, String, List, [], ◌∷◌, ◌≡◌, refl, ap, ◌∙◌, arith,
}
use dovesnap.Prelude.Text.{concat, decimal}
use dovesnap.Outcome.{Outcome, returned, panicked, Result, ok, err}
use dovesnap.Retries.{Loop, IsLoop, IsRetried, next_round, loop-IsRetried}
use dovesnap.System.{
  Env, Io, Call, load_key_pair, read_file, append_certs, dial, sleep_for, call, must_call, pure,
  panic, ◌>>=◌, ◌>>◌,
}

-- A time.Duration is an int64, here by its two's complement, and the code's sums and products wrap.
unfoldable pub next_timeout : ℕ → ℕ
next_timeout timeout = (timeout + 1) * 2 % 2 ^ 64

-- `timeout * time.Second`
unfoldable pub nanoseconds : ℕ → ℕ
nanoseconds timeout = timeout * 1000000000 % 2 ^ 64

-- `for i := 0; i < retries; i++`
unfoldable pub dial_rounds : ℕ → String → ℕ → Io (Unit {0})
unfolding next_timeout nanoseconds
dial_rounds zero addr timeout = panic "cannot connect to RPC server"
dial_rounds (suc left) addr timeout = do
  let timeout' = next_timeout timeout
  conn ← call (dial addr (nanoseconds timeout'))
  elim conn [
    | ok _ ↦ pure tt
    | err _ ↦ call (sleep_for (nanoseconds timeout')) >>= λ _. dial_rounds left addr timeout'
  ]

unfoldable pub must_get_grpc_client : String → String → ℕ → String → ℕ → Io (Unit {0})
must_get_grpc_client client_name server_name server_port key_dir retries = do
  must_call (
      load_key_pair (concat (key_dir ∷ "/" ∷ client_name ∷ ".crt" ∷ []))
        (concat (key_dir ∷ "/" ∷ client_name ∷ ".key" ∷ [])))
  ca ← must_call (read_file (concat (key_dir ∷ "/" ∷ server_name ∷ "-ca.crt" ∷ [])))
  must_call (append_certs ca)
  dial_rounds retries (concat (server_name ∷ ":" ∷ decimal server_port ∷ [])) 1

-- The timeout before round i, in seconds, and the pause of round i, in nanoseconds.
abbrev pub timeout_at : ℕ → ℕ
timeout_at i = 3 * 2 ^ i - 2

abbrev pub pause_at : ℕ → ℕ
pause_at i = (3 * 2 ^ (i + 1) - 2) * 1000000000

-- Round i dials with a timeout of 3 * 2 ^ (i + 1) - 2 seconds, then pauses for as long.
abbrev pub dial_loop : String → Loop (Unit {0})
dial_loop addr = record {
  attempt = λ i. dial addr (pause_at i);
  pause = λ i. sleep_for (pause_at i);
  read = λ answer. answer;
  succeeded = λ conn. returned tt;
  given_up = λ last_error. panicked "cannot connect to RPC server";
}

abbrev rounds_of : String → ℕ → ℕ → String → Io (Unit {0})
rounds_of addr n i last_error = dial_rounds n addr (timeout_at i)

-- The powers of 2 that 31 rounds need.
power_bounds : (i : ℕ) → i < 31 → (1 ≤ 2 ^ i) × (2 ^ i ≤ 2 ^ 30) × (2 ^ (i + 1) ≡ 2 ^ i * 2)
power_bounds i small =
    let e : i + 1 ≡ suc i = omega arith in
    let positive : 0 < 2 = omega arith in
    let low : 2 ^ 0 ≤ 2 ^ i = pow-le-pow_right positive {i = 0} {j = i} (omega arith) in
    (low, pow-le-pow_right positive {i = i} {j = 30} (omega arith), ap (λ k. 2 ^ k) e ∙ pow-suc 2 i)

next_timeout_at : (i : ℕ) → i < 31 → next_timeout (timeout_at i) ≡ timeout_at (i + 1)
unfolding next_timeout
next_timeout_at i small = omega (arith, power_bounds i small)

nanoseconds_at : (i : ℕ) → i < 31 → nanoseconds (timeout_at (i + 1)) ≡ pause_at i
unfolding nanoseconds
nanoseconds_at i small = omega (arith, power_bounds i small)

abbrev after_dial : String → ℕ → ℕ → ℕ → Result String → Io (Unit {0})
after_dial addr n seconds nanos conn = elim conn [
  | ok _ ↦ pure tt
  | err _ ↦ call (sleep_for nanos) >>= λ _. dial_rounds n addr seconds
]

after_answer :
    (addr : String) (env : Env) (h : List Call) (n i : ℕ) (conn : Result String)
    → after_dial addr n (timeout_at (i + 1)) (pause_at i) conn env (dial addr (pause_at i) ∷ h)
      ≡ next_round (dial_loop addr) (rounds_of addr) n i env h conn
after_answer addr env h n i (ok a) = refl
after_answer addr env h n i (err m) = refl

round_of :
    (addr : String) (env : Env) (h : List Call) (n i seconds nanos : ℕ)
    → seconds ≡ timeout_at (i + 1)
    → nanos ≡ pause_at i
    → after_dial addr n seconds nanos (env.answer h (dial addr nanos)) env (dial addr nanos ∷ h)
      ≡ next_round
          (dial_loop addr)
          (rounds_of addr)
          n
          i
          env
          h
          (env.answer h (dial addr (pause_at i)))
round_of addr env h n i seconds nanos t p =
    let run : ℕ → ℕ → Outcome (Unit {0}) × List Call = λ seconds nanos.
      after_dial addr n seconds nanos (env.answer h (dial addr nanos)) env (dial addr nanos ∷ h) in
    ap (λ seconds. run seconds nanos) t
    ∙ (ap (λ nanos. run (timeout_at (i + 1)) nanos) p
        ∙ after_answer addr env h n i (env.answer h (dial addr (pause_at i))))

dial_rounds-IsLoop :
    (addr : String) (env : Env) (j : ℕ) → j ≤ 31 → IsLoop (dial_loop addr) env j (rounds_of addr)
unfolding dial_rounds
dial_rounds-IsLoop addr env j few = record {
  stops = λ i e h. refl;
  goes_on = λ n i e h more.
      let small : i < 31 = omega arith in
      let t = next_timeout_at i small in
      round_of addr env h n i (next_timeout (timeout_at i))
        (nanoseconds (next_timeout (timeout_at i))) t (ap nanoseconds t ∙ nanoseconds_at i small);
}

-- A connection to the server with up to 31 retries ends, whatever is answered: after fewer rounds than the
-- retries, each a dial that fails and a pause, by a dial that succeeds; or, after exactly as many such
-- rounds as retries, by a panic. Round i, from 0, dials with a timeout of 3 * 2 ^ (i + 1) - 2
-- seconds, given in nanoseconds, and pauses for as long.
pub dial_rounds-IsRetried :
    (retries : ℕ) (addr : String) (env : Env) (h : List Call)
    → retries ≤ 31
    → IsRetried (dial_loop addr) env 0 retries "" h (dial_rounds retries addr 1 env h)
dial_rounds-IsRetried retries addr env h few =
    loop-IsRetried (dial_loop addr) env retries (rounds_of addr)
      (dial_rounds-IsLoop addr env retries few) retries 0 "" h (omega arith)
