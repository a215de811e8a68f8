-- ===== src/Driver.antt =====
-- The running driver (ovs/driver.go): requests of the plugin interface, messages that the resource
-- manager takes from its channel, and rounds of its timer, in any order. What the world answers may
-- differ from step to step.
pub mod Counting
pub mod Served
pub mod Sound
pub mod Joining
pub mod Registry
pub mod Refines
use dovesnap.Prelude.{ℕ, ◌+◌, String, Bool, true, false, List, [], ◌∷◌, ◌≡◌, str_eq, if◌then◌else◌}
use dovesnap.Outcome.{returned, HasEnded}
use dovesnap.System.{Env}
use dovesnap.State.{DriverConfig}
use dovesnap.Manager.{Manager, DovesnapOp}
use dovesnap.Plugin.{PluginRequest, serve}
use dovesnap.Handlers.Dispatch.{step, tick}

-- The state after `op` has been taken from the channel.
abbrev pub taken : List DovesnapOp → Manager → Manager
taken rest s = record s { queue = rest }

-- A request is one step, which it takes when nothing makes it wait. The loop goes on where a message
-- or a round of the timer returns; a panic ends the process. After "quit" the loop ends in the code; here
-- a step may follow it, so a property of all steps holds of the code's as well.
pub data Step : Manager → Manager → Type 0 where
  request :
      (r : PluginRequest) (env : Env) (s : Manager)
      → HasEnded (serve r env s).0
      → Step s (serve r env s).1
  message :
      (op : DovesnapOp) (rest : List DovesnapOp) (env : Env) (s : Manager)
      → s.queue ≡ op ∷ rest
      → (step op env (taken rest s)).0 ≡ returned tt
      → Step s (step op env (taken rest s)).1
  timer : (env : Env) (s : Manager) → (tick env s).0 ≡ returned tt → Step s (tick env s).1

pub data Reaches : Manager → Manager → Type 0 where
  here : (s : Manager) → Reaches s s
  onward : (s t u : Manager) → Step s t → Reaches t u → Reaches s u

-- The state in which the resource manager starts.
abbrev pub started : DriverConfig → Manager
started config = record {
  config = config;
  networks = [];
  stack_mirror_configs = [];
  of_ports = [];
  all_port_desc = [];
  last_dhcp_mtime = "1970-01-01 00:00:00 +0000 UTC";  -- time.Unix(0, 0)
  pending = 0;
  queue = [];
  replies = [];
  notices = [];
  calls = [];
}
