-- ===== src/Base/Increasing.antt =====
-- Strictly increasing lists are determined by their members.
use Prim.Native.Nat.{ℕ, zero, suc, ◌≤◌, ◌<◌}
use mathlib.Core.Path.{◌≡◌, refl, ap₂}
use mathlib.Core.List.{List, [], ◌∷◌}
use mathlib.Core.Bool.{true, false}
use native.Mathlib.Omega.{arith}
use dust_dds.Base.Numbers.{contains, count_from}

-- Strictly increasing, from `b` on.
abbrev pub Increasing : ℕ → List ℕ → Type 0
Increasing b [] = Unit {0}
Increasing b (x ∷ xs) = (b ≤ x) × Increasing (suc x) xs

pub Increasing-mono : (a b : ℕ) (xs : List ℕ) → a ≤ b → Increasing b xs → Increasing a xs
Increasing-mono a b [] h i = tt
Increasing-mono a b (x ∷ xs) h i = (omega arith, i.1)

pub contains_below : (a b : ℕ) (xs : List ℕ) → Increasing b xs → a < b → contains a xs ≡ false
contains_below a b [] i h = refl
contains_below a b (x ∷ xs) i h = ground (arith, contains_below a (suc x) xs i.1)

contains_head : (x : ℕ) (xs : List ℕ) → contains x (x ∷ xs) ≡ true
contains_head x xs = ground arith

contains_tail :
    (a x : ℕ) (xs ys : List ℕ)
    → Increasing (suc x) xs
    → Increasing (suc x) ys
    → contains a (x ∷ xs) ≡ contains a (x ∷ ys)
    → contains a xs ≡ contains a ys
contains_tail a x xs ys i j h =
    ground (arith, contains_below a (suc x) xs i, contains_below a (suc x) ys j)

same_head :
    (x y : ℕ) (xs ys : List ℕ)
    → Increasing x (x ∷ xs)
    → Increasing y (y ∷ ys)
    → ((a : ℕ) → contains a (x ∷ xs) ≡ contains a (y ∷ ys))
    → x ≡ y
same_head x y xs ys i j h = ground (
  arith,
  h x,
  h y,
  contains_head x xs,
  contains_head y ys,
  contains_below x y (y ∷ ys) j,
  contains_below y x (x ∷ xs) i,
)

pub Increasing-ext :
    (b : ℕ) (xs ys : List ℕ)
    → Increasing b xs
    → Increasing b ys
    → ((a : ℕ) → contains a xs ≡ contains a ys)
    → xs ≡ ys
Increasing-ext b [] [] i j h = refl
Increasing-ext b [] (y ∷ ys) i j h = cc (h y, contains_head y ys)
Increasing-ext b (x ∷ xs) [] i j h = cc (h x, contains_head x xs)
Increasing-ext b (x ∷ xs) (y ∷ ys) i j h =
    ap₂ ◌∷◌ heads (Increasing-ext (suc x) xs ys i.1 tail_increasing same_tail)
  where
    heads : x ≡ y
    heads = same_head x y xs ys (omega arith, i.1) (omega arith, j.1) h

    tail_increasing : Increasing (suc x) ys
    tail_increasing = Increasing-mono (suc x) (suc y) ys (omega (arith, heads)) j.1

    same_tail : (a : ℕ) → contains a xs ≡ contains a ys
    same_tail a = contains_tail a x xs ys i.1 tail_increasing (rw (← heads) at (h a))

pub count_from-Increasing : (b a n : ℕ) → b ≤ a → Increasing b (count_from a n)
count_from-Increasing b a zero h = tt
count_from-Increasing b a (suc n) h = (h, count_from-Increasing (suc a) (suc a) n (omega arith))
