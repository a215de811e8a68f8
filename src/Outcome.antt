-- ===== src/Outcome.antt =====
-- How a Go function ends: it returns, it panics (a handler may recover), it ends the process
-- (`log.Fatalf`, or a panic that nothing recovers), or it waits forever on a channel. A Go error is
-- a value of its own, `Result`.
use dovesnap.Prelude.{String, ◌≡◌, refl}

pub data Outcome {ℓ} (A : Type ℓ) : Type ℓ where
  returned : A → Outcome A
  panicked : String → Outcome A
  exited : String → Outcome A
  blocked : Outcome A

pub data Result {ℓ} (A : Type ℓ) : Type ℓ where
  ok : A → Result A
  err : String → Result A

-- The code has ended, with or without a panic: nothing waits forever or ended the process.
unfoldable pub HasEnded {ℓ} : {A : Type ℓ} → Outcome A → Type 0
HasEnded (returned _) = Unit
HasEnded (panicked _) = Unit
HasEnded (exited _) = ⊥
HasEnded blocked = ⊥

infixl 10 ◌>>=◌ ◌>>◌
abbrev pub ◌>>=◌ {ℓ κ} : {A : Type ℓ} {B : Type κ} → Outcome A → (A → Outcome B) → Outcome B
returned a >>= f = f a
panicked m >>= f = panicked m
exited m >>= f = exited m
blocked >>= f = blocked

abbrev pub ◌>>◌ {ℓ κ} : {A : Type ℓ} {B : Type κ} → Outcome A → Outcome B → Outcome B
m >> k = m >>= λ _. k

-- What a bind that returned has done.
pub >>=-eq-returned {ℓ κ} :
    {A : Type ℓ} {B : Type κ} (m : Outcome A) (f : A → Outcome B) {b : B}
    → (m >>= f) ≡ returned b
    → (a : A) × (m ≡ returned a) × (f a ≡ returned b)
>>=-eq-returned (returned a) f h = (a, refl, h)
>>=-eq-returned (panicked m) f h = cc
>>=-eq-returned (exited m) f h = cc
>>=-eq-returned blocked f h = cc
