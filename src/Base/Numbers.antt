-- ===== src/Base/Numbers.antt =====
-- Lists of numbers, machine integers as bit patterns, and the outcome of code that may panic.
use Prim.Native.Nat.{ℕ, zero, suc, ◌+◌, ◌-◌, ◌^◌, ◌%◌, ◌≤◌}
use mathlib.Core.Path.{◌≡◌, refl, ap}
use mathlib.Core.List.{List, [], ◌∷◌, ◌++◌}
use mathlib.Core.Bool.{Bool, false, ◌||◌}
use mathlib.Core.Option.{Option, none, some}
use native.Mathlib.Omega.{arith}
use dust_dds.Base.Tests.{if◌then◌else◌, ltb, leb, ◌==◌}
use dust_dds.Base.Lists.{length, take}

-- The `n` numbers from `a` on.
abbrev pub count_from : ℕ → ℕ → List ℕ
count_from a zero = []
count_from a (suc n) = a ∷ count_from (suc a) n

-- `a..b` and `a..=b`.
abbrev pub range : ℕ → ℕ → List ℕ
range a b = count_from a (b - a)

abbrev pub range_inclusive : ℕ → ℕ → List ℕ
range_inclusive a b = count_from a (b + 1 - a)

abbrev pub contains : ℕ → List ℕ → Bool
contains a [] = false
contains a (x ∷ xs) = x == a || contains a xs

-- `Iterator::min` and `Iterator::max`.
abbrev pub min_of : ℕ → ℕ → ℕ
min_of a b = if ltb b a then b else a

abbrev pub max_of : ℕ → ℕ → ℕ
max_of a b = if ltb a b then b else a

abbrev pub minimum : List ℕ → Option ℕ
minimum [] = none
minimum (x ∷ xs) = elim (minimum xs) [ none ↦ some x | some m ↦ some (min_of x m) ]

abbrev pub maximum : List ℕ → Option ℕ
maximum [] = none
maximum (x ∷ xs) = elim (maximum xs) [ none ↦ some x | some m ↦ some (max_of x m) ]

abbrev pub unwrap_or : Option ℕ → ℕ → ℕ
unwrap_or none d = d
unwrap_or (some a) d = a

-- An i32 is its bit pattern, a number below 2 ^ 32, and its order is that of the patterns with the
-- sign bit flipped.
abbrev pub i32_lt : ℕ → ℕ → Bool
i32_lt a b = ltb ((a + 2 ^ 31) % 2 ^ 32) ((b + 2 ^ 31) % 2 ^ 32)

-- `i32::wrapping_add(1)`.
abbrev pub i32_next : ℕ → ℕ
i32_next a = (a + 1) % 2 ^ 32

-- `!x` on a usize.
abbrev pub not_usize : ℕ → ℕ
not_usize x = 2 ^ 64 - 1 - x % 2 ^ 64

pub length-count_from : (a n : ℕ) → length (count_from a n) ≡ n
length-count_from a zero = refl
length-count_from a (suc n) = ap suc (length-count_from (suc a) n)

pub take-count_from : (k a n : ℕ) → k ≤ n → take k (count_from a n) ≡ count_from a k
take-count_from zero a n h = refl
take-count_from (suc k) a zero h = absurd (omega arith)
take-count_from (suc k) a (suc n) h = ap (◌∷◌ a) (take-count_from k (suc a) n (omega arith))

pub contains-count_from :
    (x a n : ℕ) → contains x (count_from a n) ≡ (if leb a x then ltb x (a + n) else false)
contains-count_from x a zero = ground arith
contains-count_from x a (suc n) = ground (arith, contains-count_from x (suc a) n)

pub contains-append :
    (x : ℕ) (xs ys : List ℕ) → contains x (xs ++ ys) ≡ (contains x xs || contains x ys)
contains-append x [] ys = refl
contains-append x (y ∷ xs) ys = ground (arith, contains-append x xs ys)
