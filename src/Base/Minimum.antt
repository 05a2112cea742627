-- ===== src/Base/Minimum.antt =====
-- `min` of a list, and what `retain` and `contains` say of each other.
use Prim.Native.Nat.{ℕ, ◌≤◌, ◌<◌}
use mathlib.Core.Path.{◌≡◌, refl, ap}
use mathlib.Core.List.{List, [], ◌∷◌}
use mathlib.Core.Bool.{Bool, true, false, ◌&&◌}
use mathlib.Core.Option.{Option, none, some}
use native.Mathlib.Omega.{arith}
use dust_dds.Base.Lists.{length, retain}
use dust_dds.Base.Numbers.{contains, minimum, min_of}

-- `m` is the smallest element, or there is none.
abbrev pub IsMinimum : List ℕ → Option ℕ → Type 0
IsMinimum xs none = xs ≡ []
IsMinimum xs (some m) = (contains m xs ≡ true) × ((x : ℕ) → contains x xs ≡ true → m ≤ x)

IsMinimum-step :
    (x : ℕ) (xs : List ℕ) (o : Option ℕ)
    → IsMinimum xs o
    → IsMinimum (x ∷ xs) (elim o [ none ↦ some x | some m ↦ some (min_of x m) ])
IsMinimum-step x xs none e = (ground arith, λ y h. ground (arith, e))
IsMinimum-step x xs (some m) h = (ground arith, λ y k. ground (arith, h.1 y))

pub minimum-IsMinimum : (xs : List ℕ) → IsMinimum xs (minimum xs)
minimum-IsMinimum [] = refl
minimum-IsMinimum (x ∷ xs) = IsMinimum-step x xs (minimum xs) (minimum-IsMinimum xs)

pub contains-retain :
    (p : ℕ → Bool) (a : ℕ) (xs : List ℕ) → contains a (retain p xs) ≡ (contains a xs && p a)
contains-retain p a [] = refl
contains-retain p a (x ∷ xs) = ground (arith, contains-retain p a xs, same_test)
  where
    same_test : x ≡ a → p x ≡ p a
    same_test e = ap p e

-- A test that implies another keeps fewer elements, and strictly fewer where an element tells the
-- two apart.
pub length-retain-le :
    (p q : ℕ → Bool) (xs : List ℕ)
    → ((x : ℕ) → p x ≡ true → q x ≡ true)
    → length (retain p xs) ≤ length (retain q xs)
length-retain-le p q [] h = omega arith
length-retain-le p q (x ∷ xs) h = ground (arith, length-retain-le p q xs h, h x)

pub length-retain-lt :
    (p q : ℕ → Bool) (a : ℕ) (xs : List ℕ)
    → ((x : ℕ) → p x ≡ true → q x ≡ true)
    → contains a xs ≡ true
    → p a ≡ false
    → q a ≡ true
    → length (retain p xs) < length (retain q xs)
length-retain-lt p q a [] h m np qa = cc
length-retain-lt p q a (x ∷ xs) h m np qa =
    ground (arith, length-retain-lt p q a xs h, length-retain-le p q xs h, h x, same_p, same_q)
  where
    same_p : x ≡ a → p x ≡ p a
    same_p e = ap p e

    same_q : x ≡ a → q x ≡ q a
    same_q e = ap q e

pub length-retain_all : (p : ℕ → Bool) (xs : List ℕ) → length (retain p xs) ≤ length xs
length-retain_all p [] = omega arith
length-retain_all p (x ∷ xs) = ground (arith, length-retain_all p xs)
