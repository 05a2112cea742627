-- ===== src/Base/Bits.antt =====
-- Single bits of a number, and what `|` and `&` with a power of two do to them.
use Prim.Native.Nat.{
  ℕ, zero, suc, ◌+◌, ◌-◌, ◌*◌, ◌/◌, ◌%◌, ◌^◌, ◌≤◌, ◌<◌, min, max, bit_and, bit_or, digits,
  bit_and-bitwise, bit_or-bitwise,
}
use mathlib.Core.Path.{◌≡◌, refl, ap, ◌∙◌}
use native.Mathlib.Omega.{arith}
use native.Mathlib.Nat.{pow-suc}
use dust_dds.Base.Tests.{◌==◌, if◌then◌else◌}

-- Bit `i` of `n`, 0 or 1.
pub bit_at : ℕ → ℕ → ℕ
bit_at n zero = n % 2
bit_at n (suc i) = bit_at (n / 2) i

pub bit_at-lt : (n i : ℕ) → bit_at n i < 2
unfolding bit_at
bit_at-lt n zero = omega arith
bit_at-lt n (suc i) = bit_at-lt (n / 2) i

pub zero-bit_at : (i : ℕ) → bit_at 0 i ≡ 0
unfolding bit_at
zero-bit_at zero = refl
zero-bit_at (suc i) = zero-bit_at i

-- A proof for every number from one for its half.
halving : (P : ℕ → Type 0) → P 0 → ((a : ℕ) → P (suc a / 2) → P (suc a)) → (n a : ℕ) → a ≤ n → P a
halving P base up n zero below = base
halving P base up zero (suc a) below = absurd (omega arith)
halving P base up (suc n) (suc a) below = up a (halving P base up n (suc a / 2) (omega arith))

-- The library's `digits` gives the same for any fuel from its first number on.
module _ (rest : ℕ → ℕ) (op : ℕ → ℕ → ℕ) where
  abbrev combine : ℕ → ℕ → ℕ → ℕ
  combine fuel a b = digits rest op fuel a b

  combine_more : (fuel a b : ℕ) → a ≤ fuel → combine (suc fuel) a b ≡ combine fuel a b
  combine_more zero zero b enough = refl
  combine_more (suc fuel) zero b enough = refl
  combine_more zero (suc a) b enough = absurd (omega arith)
  combine_more (suc fuel) (suc a) b enough =
      omega (arith, combine_more fuel (suc a / 2) (b / 2) (omega arith))

  combine_spare : (spare a b : ℕ) → combine (spare + a) a b ≡ combine a a b
  combine_spare zero a b = ap (λ (fuel : ℕ). combine fuel a b) (omega arith)
  combine_spare (suc spare) a b =
      ap (λ (fuel : ℕ). combine fuel a b) {y = suc (spare + a)} (omega arith)
      ∙ combine_more (spare + a) a b (omega arith)
      ∙ combine_spare spare a b

  combine_half : (a b : ℕ) → combine a (suc a / 2) b ≡ combine (suc a / 2) (suc a / 2) b
  combine_half a b =
      ap (λ (fuel : ℕ). combine fuel (suc a / 2) b) (omega arith)
      ∙ combine_spare (a - suc a / 2) (suc a / 2) b

bit_and_step : (a b : ℕ) → bit_and a b ≡ bit_and (a / 2) (b / 2) * 2 + min (a % 2) (b % 2)
bit_and_step zero b = omega (arith, bit_and-bitwise 0 b, bit_and-bitwise 0 (b / 2))
bit_and_step (suc a) b =
    let half = combine_half (λ x. zero) min a (b / 2) in
    omega (arith, half, bit_and-bitwise (suc a) b, bit_and-bitwise (suc a / 2) (b / 2))

bit_or_step : (a b : ℕ) → bit_or a b ≡ bit_or (a / 2) (b / 2) * 2 + max (a % 2) (b % 2)
bit_or_step zero b = omega (arith, bit_or-bitwise 0 b, bit_or-bitwise 0 (b / 2))
bit_or_step (suc a) b =
    let half = combine_half (λ x. x) max a (b / 2) in
    omega (arith, half, bit_or-bitwise (suc a) b, bit_or-bitwise (suc a / 2) (b / 2))

no_common_bit : (a : ℕ) → bit_and a 0 ≡ 0
no_common_bit a =
    halving (λ x. bit_and x 0 ≡ 0) refl (λ x h. omega (arith, h, bit_and_step (suc x) 0)) a a
      (omega arith)

no_new_bit : (a : ℕ) → bit_or a 0 ≡ a
no_new_bit a =
    halving (λ x. bit_or x 0 ≡ x) refl (λ x h. omega (arith, h, bit_or_step (suc x) 0)) a a
      (omega arith)

pow_half : (k : ℕ) → 2 ^ suc k ≡ 2 ^ k * 2
pow_half k = omega (arith, pow-suc 2 k)

pow_div : (k : ℕ) → 2 ^ suc k / 2 ≡ 2 ^ k
pow_div k = omega (arith, pow_half k)

bit_and_pow_step : (k n : ℕ) → bit_and n (2 ^ suc k) ≡ bit_and (n / 2) (2 ^ k) * 2
bit_and_pow_step k n = omega (arith, rw (pow_div k) at (bit_and_step n (2 ^ suc k)), pow_half k)

bit_or_pow_step : (k n : ℕ) → bit_or n (2 ^ suc k) ≡ bit_or (n / 2) (2 ^ k) * 2 + n % 2
bit_or_pow_step k n = omega (arith, rw (pow_div k) at (bit_or_step n (2 ^ suc k)), pow_half k)

bit_or-one : (n : ℕ) → bit_or n 1 ≡ n / 2 * 2 + 1
bit_or-one n = omega (arith, bit_or_step n 1, no_new_bit (n / 2))

-- `n & (1 << k)` keeps bit `k` in its place.
pub bit_and-pow : (k n : ℕ) → bit_and n (2 ^ k) ≡ bit_at n k * 2 ^ k
unfolding bit_at
bit_and-pow zero n = omega (arith, bit_and_step n 1, no_common_bit (n / 2))
bit_and-pow (suc k) n = omega (
  arith,
  bit_and_pow_step k n,
  pow_half k,
  bit_and-pow k (n / 2),
  ap (λ (t : ℕ). bit_at (n / 2) k * t) (pow_half k),
)

bit_at_of_half : (x y j : ℕ) → x / 2 ≡ y → bit_at x (suc j) ≡ bit_at y j
unfolding bit_at
bit_at_of_half x y j e = rw e

-- `n | (1 << k)` sets bit `k` and no other.
pub bit_at-bit_or : (k n j : ℕ) → bit_at (bit_or n (2 ^ k)) j ≡ (if k == j then 1 else bit_at n j)
unfolding bit_at
bit_at-bit_or zero n zero = omega (arith, bit_or-one n)
bit_at-bit_or zero n (suc j) =
    ground (arith, bit_at_of_half (bit_or n 1) (n / 2) j (omega (arith, bit_or-one n)))
bit_at-bit_or (suc k) n zero = ground (arith, bit_or_pow_step k n)
bit_at-bit_or (suc k) n (suc j) = ground (
  arith,
  bit_at_of_half (bit_or n (2 ^ suc k)) (bit_or (n / 2) (2 ^ k)) j
      (omega (arith, bit_or_pow_step k n)),
  bit_at-bit_or k (n / 2) j,
)
