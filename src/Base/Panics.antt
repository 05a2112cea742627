-- ===== src/Base/Panics.antt =====
-- The outcome of code that may panic. `stuck` is no outcome of the program: a loop of the model
-- ran out of fuel.

pub data Outcome {ℓ} (A : Type ℓ) : Type ℓ where
  ret : A → Outcome A
  panic : Outcome A
  stuck : Outcome A

infixl 5 ◌>>=◌
abbrev pub ◌>>=◌ {ℓ κ} : {A : Type ℓ} {B : Type κ} → Outcome A → (A → Outcome B) → Outcome B
ret a >>= f = f a
panic >>= f = panic
stuck >>= f = stuck
