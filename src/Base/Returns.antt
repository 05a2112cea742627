-- ===== src/Base/Returns.antt =====
-- Total correctness of code that may panic: it returns, and what it returns satisfies `P`.
use mathlib.Core.Path.{◌≡◌, refl}
use dust_dds.Base.Panics.{Outcome, ret, panic, stuck, ◌>>=◌}

abbrev pub Returns {ℓ} : {A : Type ℓ} → (A → Type 0) → Outcome A → Type 0
Returns P (ret a) = P a
Returns P panic = ⊥
Returns P stuck = ⊥

pub Returns-bind {ℓ κ} :
    {A : Type ℓ} {B : Type κ} (P : A → Type 0) (Q : B → Type 0) (m : Outcome A) (f : A → Outcome B)
    → Returns P m
    → ((a : A) → P a → Returns Q (f a))
    → Returns Q (m >>= f)
Returns-bind P Q (ret a) f h k = k a h
Returns-bind P Q panic f h k = absurd h
Returns-bind P Q stuck f h k = absurd h

-- The value of a computation that returns.
pub Returns-ret {ℓ} :
    {A : Type ℓ} (P : A → Type 0) (m : Outcome A) → Returns P m → (a : A) × (m ≡ ret a) × P a
Returns-ret P (ret a) h = (a, refl, h)
Returns-ret P panic h = absurd h
Returns-ret P stuck h = absurd h

pub Returns-map {ℓ} :
    {A : Type ℓ} (P : A → Type 0) (Q : A → Type 0) (m : Outcome A)
    → ((a : A) → P a → Q a)
    → Returns P m
    → Returns Q m
Returns-map P Q (ret a) f h = f a h
Returns-map P Q panic f h = absurd h
Returns-map P Q stuck f h = absurd h
