-- ===== src/Retries.antt =====
-- The loops of ovs/ovs_port.go and ovs/ovs_faucetconfrpc.go that try a call again: each round makes the
-- call and, where it fails, a pause.
use dovesnap.Prelude.{
  ℕ, zero, suc, ◌+◌, ◌≤◌, ◌<◌, String, List, ◌∷◌, ◌≡◌, refl, ◌⊎◌, inl, inr, arith,
}
use dovesnap.Outcome.{Outcome, Result, ok, err}
use dovesnap.System.{Env, Io, Call}

-- What the rounds of a loop do: the call of round i and the pause after it, what is read of an answer, and
-- how the loop ends by an answer that is no error, or by the error of its last round.
pub record Loop (A : Type 0) : Type 0 where
  pub attempt : ℕ → Call
  pub pause : ℕ → Call
  pub read : Result String → Result String
  pub succeeded : String → Outcome A
  pub given_up : String → Outcome A

module _ {A : Type 0} where
  -- The rounds from i on and below j have failed: each has made its call, got an error and paused. The calls and
  -- the last error are those before round i, then those after the last round.
  pub data HasFailed (l : Loop A) (env : Env)
      : ℕ → ℕ → String → List Call → String → List Call → Type 0 where
    no_round :
        (i j : ℕ) (last_error : String) (h : List Call)
        → i ≡ j
        → HasFailed l env i j last_error h last_error h
    one_round :
        (i j : ℕ) (last_error e final : String) (h after : List Call)
        → l.read (env.answer h (l.attempt i)) ≡ err e
        → HasFailed l env (i + 1) j e (l.pause i ∷ l.attempt i ∷ h) final after
        → HasFailed l env i j last_error h final after

  -- A round has succeeded, after the rounds before it had failed; the loop ends at once.
  pub record HasSucceeded (l : Loop A) (env : Env) (i j : ℕ) (last_error : String) (h : List Call)
      (r : Outcome A × List Call) : Type 0 where
    pub round : ℕ
    pub low : i ≤ round
    pub high : round < j
    pub error : String
    pub before : List Call
    pub failed : HasFailed l env i round last_error h error before
    pub output : String
    pub answered : l.read (env.answer before (l.attempt round)) ≡ ok output
    pub ended : r ≡ (l.succeeded output, l.attempt round ∷ before)

  -- All rounds have failed.
  pub record HasGivenUp (l : Loop A) (env : Env) (i j : ℕ) (last_error : String) (h : List Call)
      (r : Outcome A × List Call) : Type 0 where
    pub error : String
    pub after : List Call
    pub failed : HasFailed l env i j last_error h error after
    pub ended : r ≡ (l.given_up error, after)

  abbrev pub IsRetried : Loop A → Env → ℕ → ℕ → String → List Call → Outcome A × List Call → Type 0
  IsRetried l env i j last_error h r =
      HasSucceeded l env i j last_error h r ⊎ HasGivenUp l env i j last_error h r

  -- What a round does after the answer to its call.
  abbrev pub next_round :
      Loop A
      → (ℕ → ℕ → String → Io A)
      → ℕ
      → ℕ
      → Env
      → List Call
      → Result String
      → Outcome A × List Call
  next_round l m n i env h (ok output) = (l.succeeded output, l.attempt i ∷ h)
  next_round l m n i env h (err e) = m n (i + 1) e env (l.pause i ∷ l.attempt i ∷ h)

  -- A function of the rounds that are left, the round's number and the last error is the loop, up to round j.
  pub record IsLoop (l : Loop A) (env : Env) (j : ℕ) (m : ℕ → ℕ → String → Io A) : Type 0 where
    pub stops : (i : ℕ) (e : String) (h : List Call) → m zero i e env h ≡ (l.given_up e, h)
    pub goes_on :
        (n i : ℕ) (e : String) (h : List Call)
        → i < j
        → m (suc n) i e env h ≡ next_round l m n i env h (l.read (env.answer h (l.attempt i)))

  earlier :
      (l : Loop A) (env : Env) (i j : ℕ) (e e' : String) (h : List Call) (r : Outcome A × List Call)
      → l.read (env.answer h (l.attempt i)) ≡ err e'
      → IsRetried l env (i + 1) j e' (l.pause i ∷ l.attempt i ∷ h) r
      → IsRetried l env i j e h r
  earlier l env i j e e' h r a (inl s) = inl (record {
    round = s.round;
    low = omega (arith, s.low);
    high = s.high;
    error = s.error;
    before = s.before;
    failed = one_round i s.round e e' s.error h s.before a s.failed;
    output = s.output;
    answered = s.answered;
    ended = s.ended;
  })
  earlier l env i j e e' h r a (inr g) = inr (record {
    error = g.error;
    after = g.after;
    failed = one_round i j e e' g.error h g.after a g.failed;
    ended = g.ended;
  })

  after_answer :
      (l : Loop A) (env : Env) (j : ℕ) (m : ℕ → ℕ → String → Io A) (n i : ℕ) (e : String)
      (h : List Call) (r : Outcome A × List Call) (a : Result String)
      → i < j
      → l.read (env.answer h (l.attempt i)) ≡ a
      → r ≡ next_round l m n i env h a
      → ((e' : String)
          → let g = l.pause i ∷ l.attempt i ∷ h in
            IsRetried l env (i + 1) j e' g (m n (i + 1) e' env g))
      → IsRetried l env i j e h r
  after_answer l env j m n i e h r (ok output) more a run rest = inl (record {
    round = i;
    low = omega arith;
    high = more;
    error = e;
    before = h;
    failed = no_round i i e h refl;
    output = output;
    answered = a;
    ended = run;
  })
  after_answer l env j m n i e h r (err e') more a run rest =
      rw run (earlier l env i j e e' h _ a (rest e'))

  -- A loop of these rounds ends with the first round that succeeds, or after all of them.
  pub loop-IsRetried :
      (l : Loop A) (env : Env) (j : ℕ) (m : ℕ → ℕ → String → Io A)
      → IsLoop l env j m
      → (n i : ℕ) (e : String) (h : List Call) → i + n ≡ j
      → IsRetried l env i j e h (m n i e env h)
  loop-IsRetried l env j m loop zero i e h last = inr (record {
    error = e;
    after = h;
    failed = no_round i j e h (omega arith);
    ended = loop.stops i e h;
  })
  loop-IsRetried l env j m loop (suc n) i e h last =
      let more : i < j = omega arith in
      after_answer l env j m n i e h (m (suc n) i e env h) (l.read (env.answer h (l.attempt i)))
        more refl (loop.goes_on n i e h more)
        (λ e'.
          loop-IsRetried l env j m loop n (i + 1) e' (l.pause i ∷ l.attempt i ∷ h) (omega arith))
