-- ===== src/Ports/Retries.antt =====
-- The retries of mustScrapePortDesc of ovs/ovs_port.go.
use dovesnap.Prelude.{ℕ, ◌+◌, String, List, [], ◌∷◌, ◌≡◌, refl}
use dovesnap.Outcome.{returned, panicked, Result, ok, err}
use dovesnap.System.{Env, Io, Call, exec, sleep, call, pure, ◌>>=◌}
use dovesnap.Commands.{of_ctl, run_cmd, ovs_ofctl_path, trimmed}
use dovesnap.Ports.{
  PortDesc, parse_port_desc, scrape_port_desc, scrape_rounds, must_scrape_port_desc, scraped,
}
use dovesnap.Retries.{Loop, IsLoop, IsRetried, next_round, loop-IsRetried}

abbrev pub dump_call : String → Call
dump_call bridge_name = exec ovs_ofctl_path ("dump-ports-desc" ∷ bridge_name ∷ [])

-- A round dumps the ports; round i, from 0, pauses for i + 1 seconds. The ports are those of the dump's text,
-- and the panic has the last error.
abbrev pub scrape_loop : String → PortDesc → Loop PortDesc
scrape_loop bridge_name desc = record {
  attempt = λ i. dump_call bridge_name;
  pause = λ i. sleep (i + 1);
  read = trimmed;
  succeeded = λ output. returned (parse_port_desc output desc);
  given_up = λ last_error. panicked last_error;
}

abbrev rounds_of : String → PortDesc → ℕ → ℕ → String → Io PortDesc
rounds_of bridge_name desc n i last_error = scrape_rounds n i last_error bridge_name desc

after_dump :
    (b : String) (desc : PortDesc) (env : Env) (h : List Call) (n i : ℕ) (r : Result String)
    → (elim (scraped r desc) as (λ _. Io PortDesc) [
      | ok new_desc ↦ pure new_desc
      | err m ↦ call (sleep (i + 1)) >>= λ _. scrape_rounds n (i + 1) m b desc
    ])
        env
        (dump_call b ∷ h)
      ≡ next_round (scrape_loop b desc) (rounds_of b desc) n i env h r
after_dump b desc env h n i (ok output) = refl
after_dump b desc env h n i (err m) = refl

scrape_rounds-IsLoop :
    (b : String) (desc : PortDesc) (env : Env) (j : ℕ)
    → IsLoop (scrape_loop b desc) env j (rounds_of b desc)
unfolding scrape_rounds scrape_port_desc of_ctl run_cmd
scrape_rounds-IsLoop b desc env j = record {
  stops = λ i e h. refl;
  goes_on = λ n i e h more. after_dump b desc env h n i (trimmed (env.answer h (dump_call b)));
}

-- A scrape of a bridge's ports ends, whatever is answered: after fewer than four rounds, each a dump that
-- fails and a pause, with the ports of a dump that succeeds; or, after exactly four such rounds, by a
-- panic with the error of the last dump. Round i, from 0, pauses for i + 1 seconds.
pub must_scrape_port_desc-IsRetried :
    (bridge_name : String) (desc : PortDesc) (env : Env) (h : List Call)
    → IsRetried
        (scrape_loop bridge_name desc)
        env
        0
        4
        ""
        h
        (must_scrape_port_desc bridge_name desc env h)
unfolding must_scrape_port_desc
must_scrape_port_desc-IsRetried b desc env h =
    loop-IsRetried (scrape_loop b desc) env 4 (rounds_of b desc) (scrape_rounds-IsLoop b desc env 4)
      4 0 "" h refl
