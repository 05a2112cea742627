-- ===== src/Base/Slices.antt =====
-- `take` and `drop` of sums and minima.
use Prim.Native.Nat.{ℕ, zero, suc, ◌+◌, ◌≤◌, min}
use mathlib.Core.Path.{◌≡◌, refl, sym, ap, ◌∙◌}
use mathlib.Core.List.{List, [], ◌∷◌, ◌++◌}
use native.Mathlib.Omega.{arith}
use dust_dds.Base.Lists.{take, drop, length}

take-nil : (n : ℕ) → take {A = ℕ} n [] ≡ []
take-nil zero = refl
take-nil (suc n) = refl

drop-nil : (n : ℕ) → drop {A = ℕ} n [] ≡ []
drop-nil zero = refl
drop-nil (suc n) = refl

pub take-add : (m n : ℕ) (xs : List ℕ) → take (m + n) xs ≡ take m xs ++ take n (drop m xs)
take-add zero n xs = ap (λ (k : ℕ). take k xs) (omega arith)
take-add (suc m) n [] = ap (λ (k : ℕ). take k []) {y = suc (m + n)} (omega arith) ∙ sym (take-nil n)
take-add (suc m) n (x ∷ xs) =
    ap (λ (k : ℕ). take k (x ∷ xs)) {y = suc (m + n)} (omega arith) ∙ ap (◌∷◌ x) (take-add m n xs)

pub drop-add : (m n : ℕ) (xs : List ℕ) → drop (m + n) xs ≡ drop n (drop m xs)
drop-add zero n xs = ap (λ (k : ℕ). drop k xs) (omega arith)
drop-add (suc m) n [] = ap (λ (k : ℕ). drop k []) {y = suc (m + n)} (omega arith) ∙ sym (drop-nil n)
drop-add (suc m) n (x ∷ xs) =
    ap (λ (k : ℕ). drop k (x ∷ xs)) {y = suc (m + n)} (omega arith) ∙ drop-add m n xs

-- A bound above the length makes no difference.
pub take-min : (m n : ℕ) (xs : List ℕ) → length xs ≤ n → take (min m n) xs ≡ take m xs
take-min zero n xs h = ap (λ (k : ℕ). take k xs) {y = 0} (omega arith)
take-min (suc m) zero [] h = take-nil (min (suc m) zero)
take-min (suc m) zero (x ∷ xs) h = absurd (omega arith)
take-min (suc m) (suc n) [] h = ap (λ (k : ℕ). take k []) {y = suc (min m n)} (omega arith)
take-min (suc m) (suc n) (x ∷ xs) h =
    ap (λ (k : ℕ). take k (x ∷ xs)) {y = suc (min m n)} (omega arith)
    ∙ ap (◌∷◌ x) (take-min m n xs (omega arith))
