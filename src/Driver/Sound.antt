-- ===== src/Driver/Sound.antt =====
-- The invariant of the running driver (ovs/driver.go), over requests, messages and rounds of the timer,
-- and what a request to join may rely on.
use mathlib.Core.Path.{subst}
use dovesnap.Prelude.{
  ℕ, ◌+◌, Bool, true, false, List, [], ◌∷◌, ◌++◌, ◌≡◌, refl, sym, ap, ◌∙◌, inl, inr, arith, All,
  All-append, if◌then◌else◌,
}
use dovesnap.Prelude.Map.{string_key, lookup}
use dovesnap.Outcome.{returned}
use dovesnap.System.{Env}
use dovesnap.State.{DriverConfig}
use dovesnap.Manager.{Manager, DovesnapOp}
use dovesnap.Manager.Keeps.{Keeps}
use dovesnap.Plugin.{PluginRequest, serve}
use dovesnap.Plugin.Keeps.{keep_serve}
use dovesnap.Handlers.Dispatch.{step, tick}
use dovesnap.Handlers.KeepsDispatch.{is_counted}
use dovesnap.Handlers.WellFormed.{IsWellFormed, Preserves, preserves_laws}
use dovesnap.Handlers.Invariant.{step_preserves, tick_preserves}
use dovesnap.Driver.{Step, request, message, timer, Reaches, here, onward, taken, started}
use dovesnap.Driver.Counting.{traffic_tick, step-Uncounted, step_counts}
use dovesnap.Driver.Served.{weight, IsSafe, IsServed, serve_lem}

-- How many messages of the channel change the networks.
unfoldable pub changes : List DovesnapOp → ℕ
changes [] = 0
changes (op ∷ ops) = weight op + changes ops

-- The counter is the number of changes in the channel, whose messages are safe to handle, and the
-- maps are well-formed.
pub record IsSound (s : Manager) : Type 0 where
  pub counted : s.pending ≡ changes s.queue
  pub safe : All IsSafe s.queue
  pub maps : IsWellFormed s

changes-++ :
    (l : List DovesnapOp) (op : DovesnapOp) → changes (l ++ (op ∷ [])) ≡ weight op + changes l
unfolding changes
changes-++ [] op = refl
changes-++ (m ∷ l) op = ground (arith, changes-++ l op)

serve-IsSound : (s t : Manager) → IsServed s t → IsWellFormed t → IsSound s → IsSound t
serve-IsSound s t (inl h) maps sound = record {
  counted = h.0 ∙ sound.counted ∙ ap changes (sym h.1);
  safe = subst (All IsSafe) (sym h.1) sound.safe;
  maps = maps;
}
serve-IsSound s t (inr (op, safe, q, p)) maps sound = record {
  counted =
      p ∙ ap (λ n. weight op + n) sound.counted ∙ sym (changes-++ s.queue op) ∙ ap changes (sym q);
  safe = subst (All IsSafe) (sym q) (All-append IsSafe s.queue (op ∷ []) sound.safe (safe, tt));
  maps = maps;
}

pub weight_of : (op : DovesnapOp) (b : Bool) → is_counted op ≡ b → weight op ≡ (if b then 1 else 0)
weight_of op b h = ap (λ c. if c then 1 else 0) h

-- What a message that returns has taken from the counter.
counted_down :
    (op : DovesnapOp) (env : Env) (u : Manager) (n : ℕ) (b : Bool)
    → is_counted op ≡ b
    → IsSafe op
    → u.pending ≡ weight op + n
    → (step op env u).0 ≡ returned tt
    → (step op env u).1.pending ≡ n
counted_down op env u n true h safe p e =
    let w = weight_of op true h in (step_counts op n h safe.once).after env u tt (omega arith) e
counted_down op env u n false h safe p e =
    let w = weight_of op false h in let same = ((step-Uncounted op).after env u).1 h in omega arith

step-IsSound :
    (op : DovesnapOp) (rest : List DovesnapOp) (env : Env) (s : Manager)
    → s.queue ≡ op ∷ rest
    → (step op env (taken rest s)).0 ≡ returned tt
    → IsSound s
    → IsSound (step op env (taken rest s)).1
unfolding changes IsWellFormed
step-IsSound op rest env s h e sound =
    let left = ((step-Uncounted op).after env (taken rest s)).0 in
    let safe = subst (All IsSafe) h sound.safe in
    record {
      counted =
          counted_down op env (taken rest s) (changes rest) (is_counted op) refl safe.0
            (sound.counted ∙ ap changes h) e
          ∙ ap changes (sym left);
      safe = subst (All IsSafe) (sym left) safe.1;
      maps = step_preserves op env (taken rest s) safe.0.made sound.maps;
    }

tick-IsSound : (env : Env) (s : Manager) → IsSound s → IsSound (tick env s).1
tick-IsSound env s sound =
    let same = traffic_tick.after env s in
    record {
      counted = same.0 ∙ sound.counted ∙ ap changes (sym same.1);
      safe = subst (All IsSafe) (sym same.1) sound.safe;
      maps = tick_preserves env s sound.maps;
    }

serve_preserves : (r : PluginRequest) → Keeps Preserves (serve r)
unfolding IsWellFormed
serve_preserves r = keep_serve preserves_laws (λ s k h. h) (λ s q h. h) r

driver_step : (s t : Manager) → Step s t → IsSound s → IsSound t
driver_step s _ (request r env _ e) sound =
    serve-IsSound s (serve r env s).1 (serve_lem r env s e)
      ((serve_preserves r).after env s sound.maps) sound
driver_step s _ (message op rest env _ h e) sound = step-IsSound op rest env s h e sound
driver_step s _ (timer env _ e) sound = tick-IsSound env s sound

started-IsSound : (d : DriverConfig) → IsSound (started d)
unfolding changes IsWellFormed lookup
started-IsSound d = record { counted = refl; safe = tt; maps = λ id ns h. cc }

reaches-IsSound : (s t : Manager) → Reaches s t → IsSound s → IsSound t
reaches-IsSound s _ (here _) h = h
reaches-IsSound s u (onward _ t _ first rest) h = reaches-IsSound t u rest (driver_step s t first h)

-- In every state that the driver reaches from its start, by requests, messages and rounds of the timer
-- in any order and whatever the world answers, the counter is the number of messages in the
-- channel that change the networks, each message that creates a network brings its maps, and each
-- known network has its shared maps and a mirror configuration.
pub reached-IsSound : (d : DriverConfig) (t : Manager) → Reaches (started d) t → IsSound t
reached-IsSound d t h = reaches-IsSound (started d) t h (started-IsSound d)
