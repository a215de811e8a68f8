-- ===== src/Bridge/Cleanup.antt =====
-- What ovs/ovs_bridge.go leaves behind where the configuration of a bridge fails.
use dovesnap.Prelude.{String, List, [], ◌∷◌, ◌≡◌, refl, ◌⊎◌, inl, inr}
use dovesnap.Prelude.Text.{concat}
use dovesnap.Outcome.{Outcome, returned, Result, ok, err}
use dovesnap.System.{Env, Io, Call, exec}
use dovesnap.Commands.{trimmed, vs_ctl, run_cmd, ovs_vsctl_path, ovs_vsctl_db_path}
use dovesnap.Bridge.{run_config, give_up}

-- The call of ovs-vsctl with these arguments.
abbrev pub vs_call : List String → Call
vs_call args = exec ovs_vsctl_path (concat ("--db=" ∷ ovs_vsctl_db_path ∷ []) ∷ args)

-- The newest call deletes the bridge.
abbrev pub IsDeleted : String → List Call → Type 0
IsDeleted bridge_name h =
    (before : List Call) × (h ≡ vs_call ("del-br" ∷ bridge_name ∷ []) ∷ before)

-- How a configuration ends: well, or by an error and with the bridge deleted.
abbrev pub IsCleaned : String → Outcome (Result (Unit {0})) × List Call → Type 0
IsCleaned bridge_name r =
    (r.0 ≡ returned (ok tt))
    ⊎ ((m : String) × ((r.0 ≡ returned (err m)) × IsDeleted bridge_name r.1))

give_up-IsCleaned :
    (bridge_name m : String) (env : Env) (h : List Call)
    → IsCleaned bridge_name (give_up bridge_name m env h)
unfolding vs_ctl run_cmd
give_up-IsCleaned bridge_name m env h = inr (m, (refl, (h, refl)))

answered :
    (bridge_name : String) (k : Io (Result (Unit {0}))) (env : Env) (h : List Call)
    (r : Result String)
    → IsCleaned bridge_name (k env h)
    → IsCleaned bridge_name
        (elim r as (λ _. Io (Result (Unit {0}))) [ ok _ ↦ k | err m ↦ give_up bridge_name m ] env h)
answered bridge_name k env h (ok _) p = p
answered bridge_name k env h (err m) p = give_up-IsCleaned bridge_name m env h

-- A configuration of a bridge returns, whatever the commands answer; where it returns an error, the newest call
-- deletes the bridge.
pub run_config-IsCleaned :
    (bridge_name : String) (cmds : List (List String)) (env : Env) (h : List Call)
    → IsCleaned bridge_name (run_config bridge_name cmds env h)
unfolding run_config vs_ctl run_cmd
run_config-IsCleaned bridge_name [] env h = inl refl
run_config-IsCleaned bridge_name (cmd ∷ cmds) env h =
    let c = vs_call cmd in
    answered bridge_name (run_config bridge_name cmds) env (c ∷ h) (trimmed (env.answer h c))
      (run_config-IsCleaned bridge_name cmds env (c ∷ h))
