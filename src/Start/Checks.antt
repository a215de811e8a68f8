-- ===== src/Start/Checks.antt =====
-- What holds of the configuration that NewDriver of ovs/driver.go has accepted.
use mathlib.Core.Path.{subst}
use dovesnap.Prelude.{
  String, Bool, true, false, not, ◌&&◌, List, [], ◌∷◌, ◌≡◌, refl, sym, ap, ◌∙◌, ◌⊎◌, inl, inr,
  arith, str_eq, eq_iff, ◌==◌, ==_iff, length, if◌then◌else◌,
}
use dovesnap.Prelude.Text.{split}
use dovesnap.Outcome.{Outcome, returned, panicked, exited, blocked}
use dovesnap.System.{Env, Io, Call, continue, lift, ◌>>=◌}
use dovesnap.State.{DriverConfig, using_stack_mirroring}
use dovesnap.Links.{ensure_dir_exists, net_ns_path}
use dovesnap.Docker.{must_get_docker_client, must_get_short_engine_id}
use dovesnap.Faucet.Client.{must_get_grpc_client}
use dovesnap.Bridge.{wait_for_ovs}
use dovesnap.Start.{
  Flags, checked_mirror_interface, given_config, named_config, auth_ips, create_bridges, new_driver,
}

-- What holds of the value that an action returns.
record Gives {ℓ} {A : Type ℓ} (env : Env) (P : A → Type 0) (m : Io A) : Type ℓ where
  value : (h : List Call) (a : A) → (m env h).0 ≡ returned a → P a

module _ {ℓ κ} {A : Type ℓ} {B : Type κ} {env : Env} {Q : B → Type 0} where
  after_end :
      (P : A → Type 0) (f : A → Io B) (h : List Call) (o : Outcome A) (b : B)
      → ((a : A) → o ≡ returned a → P a)
      → ((a : A) → Gives env (λ c. P a → Q c) (f a))
      → (continue o f env h).0 ≡ returned b
      → Q b
  after_end P f h (returned a) b p k e = (k a).value h b e (p a refl)
  after_end P f h (panicked m) b p k e = cc
  after_end P f h (exited m) b p k e = cc
  after_end P f h blocked b p k e = cc

  bind_value :
      {P : A → Type 0} {m : Io A} {f : A → Io B}
      → Gives env P m
      → ((a : A) → Gives env (λ c. P a → Q c) (f a))
      → Gives env Q (m >>= f)
  bind_value {P} {m} {f} g k = record {
    value = λ h b e. after_end P f (m env h).1 (m env h).0 b (λ a. g.value h a) k e;
  }

  then_value : (m : Io A) {f : A → Io B} → ((a : A) → Gives env Q (f a)) → Gives env Q (m >>= f)
  then_value m {f} k = record {
    value = λ h b e.
        after_end (λ _. Unit {0}) f (m env h).1 (m env h).0 b (λ a _. tt)
          (λ a. record { value = λ t c e _. (k a).value t c e }) e;
  }

-- Two parts, or none.
abbrev IsPair : List String → Type 0
IsPair parts = (length parts ≡ 2) ⊎ (parts ≡ "" ∷ [])

same_parts : {x y : List String} → returned x ≡ returned y → x ≡ y
same_parts e = cc

both_checks :
    (text m : String) (ps parts : List String) (a b : Bool)
    → str_eq text "" ≡ a
    → (length ps == 2) ≡ b
    → ps ≡ split ":" text
    → (if not a && not b then panicked m else returned ps) ≡ returned parts
    → (parts ≡ split ":" text) × IsPair parts
unfolding split
both_checks text m ps parts true b empty two cut e = (
  sym (same_parts e) ∙ cut,
  inr (sym (same_parts e) ∙ cut ∙ ap (λ t. split ":" t) ((eq_iff text "").0 empty)),
)
both_checks text m ps parts false true empty two cut e =
    (sym (same_parts e) ∙ cut, inl (ap length (sym (same_parts e)) ∙ (==_iff (length ps) 2).0 two))
both_checks text m ps parts false false empty two cut e = cc

two_if_mirroring :
    (d : DriverConfig)
    → IsPair d.stack_mirror_interface
    → using_stack_mirroring d ≡ true
    → length d.stack_mirror_interface ≡ 2
unfolding using_stack_mirroring
two_if_mirroring d (inl two) h = two
two_if_mirroring d (inr one) h = ground (arith, h, ap length one)

same_config : {x y : DriverConfig} → returned x ≡ returned y → x ≡ y
same_config e = cc

abbrev IsChecked : Flags → DriverConfig → Type 0
IsChecked f d =
    (d.stack_mirror_interface ≡ split ":" f.stack_mirror_interface)
    × (using_stack_mirroring d ≡ true → length d.stack_mirror_interface ≡ 2)

accepted :
    (f : Flags) (parts : List String)
    → checked_mirror_interface f ≡ returned parts
    → (parts ≡ split ":" f.stack_mirror_interface) × IsPair parts
unfolding checked_mirror_interface
accepted f parts h =
    both_checks f.stack_mirror_interface _ (split ":" f.stack_mirror_interface) parts
      (str_eq f.stack_mirror_interface "") (length (split ":" f.stack_mirror_interface) == 2) refl
      refl refl h

named-IsChecked :
    (f : Flags) (parts : List String) (id : String)
    → (parts ≡ split ":" f.stack_mirror_interface) × IsPair parts
    → IsChecked f (named_config id (given_config f parts))
unfolding given_config named_config
named-IsChecked f parts id h = (h.0, two_if_mirroring (named_config id (given_config f parts)) h.1)

new_driver-IsChecked : (f : Flags) (env : Env) → Gives env (IsChecked f) (new_driver f)
unfolding new_driver
new_driver-IsChecked f env = then_value (ensure_dir_exists net_ns_path) (λ _.
    bind_value {P = λ parts. (parts ≡ split ":" f.stack_mirror_interface) × IsPair parts}
      {m = lift (checked_mirror_interface f)} (record { value = λ h parts e. accepted f parts e })
      (λ parts. then_value (auth_ips (split "," f.status_auth_ips)) (λ _.
        then_value must_get_docker_client (λ _. then_value must_get_short_engine_id (λ id.
          let d = named_config id (given_config f parts) in
          then_value
            (must_get_grpc_client f.client_name f.server_name f.server_port f.key_dir
              f.conn_retries)
            (λ _. then_value wait_for_ovs (λ _. then_value (create_bridges d) (λ _. record {
              value =
                  λ h c e ok. subst (IsChecked f) (same_config e) (named-IsChecked f parts id ok);
            }))))))))

-- A start that returns gives a configuration whose mirror interface is the flag's text, cut at its colons,
-- and has exactly two parts where the driver mirrors its stack, so that both the name and the
-- port of the link are there.
pub new_driver_checks :
    (f : Flags) (env : Env) (h : List Call) (d : DriverConfig)
    → (new_driver f env h).0 ≡ returned d
    → (d.stack_mirror_interface ≡ split ":" f.stack_mirror_interface)
      × (using_stack_mirroring d ≡ true → length d.stack_mirror_interface ≡ 2)
new_driver_checks f env h d e = (new_driver-IsChecked f env).value h d e
