-- ===== src/Manager/Triples.antt =====
-- Conditions before an action of the resource manager (ovs/driver.go) and after it, where it returns.
use mathlib.Core.Path.{subst}
use dovesnap.Prelude.{◌≡◌, refl}
use dovesnap.Outcome.{Outcome, returned, panicked, exited, blocked}
use dovesnap.System
use dovesnap.System.{Env}
use dovesnap.Manager.{M, Manager, continue, pure, io, modify, ◌>>=◌}
use dovesnap.Manager.Keeps.{Keeps}

pub record Triple {ℓ} {A : Type ℓ} (P Q : Manager → Type 0) (m : M A) : Type ℓ where
  pub after : (env : Env) (s : Manager) (a : A) → P s → (m env s).0 ≡ returned a → Q (m env s).1

module _ {P : Manager → Type 0} where
  pub rule_of_keeping {ℓ} : {A : Type ℓ} {m : M A} → Keeps (λ s t. P s → P t) m → Triple P P m
  rule_of_keeping h = record { after = λ env s a p _. h.after env s p }

module _ {P Q : Manager → Type 0} where
  pub modify_rule :
      (f : Manager → Manager) → ((s : Manager) → P s → Q (f s)) → Triple P Q (modify f)
  unfolding modify
  modify_rule f h = record { after = λ env s a p _. h s p }

module _ {Q S : Manager → Type 0} where
  continued {ℓ κ} :
      {A : Type ℓ} {B : Type κ} (f : A → M B) (env : Env) (t : Manager) (o : Outcome A) (b : B)
      → ((a : A) → o ≡ returned a → Q t)
      → ((a : A) → Triple Q S (f a))
      → (continue o f env t).0 ≡ returned b
      → S (continue o f env t).1
  continued f env t (returned a) b h k e = (k a).after env t b (h a refl) e
  continued f env t (panicked m) b h k e = cc
  continued f env t (exited m) b h k e = cc
  continued f env t blocked b h k e = cc

  pub bind_rule {ℓ κ} :
      {P : Manager → Type 0} {A : Type ℓ} {B : Type κ} {m : M A} {f : A → M B}
      → Triple P Q m
      → ((a : A) → Triple Q S (f a))
      → Triple P S (m >>= f)
  bind_rule {m} {f} h k = record {
    after = λ env s b p e. continued f env (m env s).1 (m env s).0 b (λ a. h.after env s a p) k e;
  }

module _ {ℓ κ} {A : Type ℓ} {B : Type κ} where
  split_after :
      (f : A → M B) (env : Env) (t : Manager) (o : Outcome A) {b : B}
      → (continue o f env t).0 ≡ returned b
      → (a : A) × (o ≡ returned a) × ((f a env t).0 ≡ returned b)
  split_after f env t (returned a) e = (a, refl, e)
  split_after f env t (panicked m) e = cc
  split_after f env t (exited m) e = cc
  split_after f env t blocked e = cc

  -- What a bind that returned has done.
  pub split_returned :
      (m : M A) (f : A → M B) (env : Env) (s : Manager) {b : B}
      → ((m >>= f) env s).0 ≡ returned b
      → (a : A) × ((m env s).0 ≡ returned a) × ((f a env (m env s).1).0 ≡ returned b)
  split_returned m f env s e = split_after f env (m env s).1 (m env s).0 e

-- What holds of the value that an action returns and of the state that it leaves, by what held before.
pub record Yields {ℓ} {A : Type ℓ} (env : Env) (P : Manager → Type 0) (m : M A)
    (Q : A → Manager → Type 0) : Type ℓ where
  pub value : (s : Manager) (a : A) → P s → (m env s).0 ≡ returned a → Q a (m env s).1

module _ {ℓ κ} {A : Type ℓ} {B : Type κ} {env : Env} {Q : B → Manager → Type 0} where
  value_after :
      (R : A → Manager → Type 0) (f : A → M B) (t : Manager) (o : Outcome A) (b : B)
      → ((a : A) → o ≡ returned a → R a t)
      → ((a : A) → Yields env (R a) (f a) Q)
      → (continue o f env t).0 ≡ returned b
      → Q b (continue o f env t).1
  value_after R f t (returned a) b h k e = (k a).value t b (h a refl) e
  value_after R f t (panicked m) b h k e = cc
  value_after R f t (exited m) b h k e = cc
  value_after R f t blocked b h k e = cc

  pub value_bind :
      {P : Manager → Type 0} {R : A → Manager → Type 0} {m : M A} {f : A → M B}
      → Yields env P m R
      → ((a : A) → Yields env (R a) (f a) Q)
      → Yields env P (m >>= f) Q
  value_bind {R} {m} {f} h k = record {
    value = λ s b p e. value_after R f (m env s).1 (m env s).0 b (λ a. h.value s a p) k e;
  }

  -- A step whose value does not matter, where what held before is not of the state.
  pub value_then :
      {X : Type 0} (m : M A) {f : A → M B}
      → ((a : A) → Yields env (λ _. X) (f a) Q)
      → Yields env (λ _. X) (m >>= f) Q
  value_then {X} m {f} k = record {
    value = λ s b x e. value_after (λ _ _. X) f (m env s).1 (m env s).0 b (λ a _. x) k e;
  }

same_value {ℓ} : {A : Type ℓ} {a b : A} → returned a ≡ returned b → a ≡ b
same_value e = cc

module _ {ℓ} {A : Type ℓ} {env : Env} where
  pub value_pure :
      {P : Manager → Type 0} (Q : A → Manager → Type 0) (a : A)
      → ((s : Manager) → P s → Q a s)
      → Yields env P (pure a) Q
  unfolding pure
  value_pure Q a h = record { value = λ s b p e. subst (λ c. Q c s) (same_value e) (h s p) }

  pub value_lift :
      {P : Manager → Type 0} (Q : A → Type 0) (o : Outcome A)
      → ((a : A) → o ≡ returned a → Q a)
      → Yields env P (io (System.lift o)) (λ a _. Q a)
  unfolding io
  value_lift Q o h = record { value = λ s a p e. h a e }
