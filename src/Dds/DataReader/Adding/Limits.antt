-- ===== src/Dds/DataReader/Adding/Limits.antt =====
-- Counting the samples of a list before and after it is put in order and a sample is removed.
use dust_dds.Base.{
  ℕ, suc, ◌+◌, ◌%◌, ◌^◌, ◌≤◌, ◌<◌, ◌≡◌, refl, arith, Bool, true, false, List, [], ◌∷◌, ◌++◌, ◌==◌,
  if◌then◌else◌, Bool-cases, inl, inr,
}
use dust_dds.Base.Returns.{Returns, Returns-bind, Returns-map}
use dust_dds.Dds.Handles.{InstanceHandle}
use dust_dds.Dds.Qos.{HistoryQosPolicyKind, keep_last, keep_all}
use dust_dds.Dds.DataReader.{ReaderSample}
use dust_dds.Dds.DataReader.Adding.{
  count, is_alive_of, remove_first_alive, make_room, insert_by, sort_by,
}

count-insert_by :
    (p : ReaderSample → Bool) (le : ReaderSample → ReaderSample → Bool) (x : ReaderSample)
    (xs : List ReaderSample)
    → count p (insert_by le x xs) ≡ count p (x ∷ xs)
unfolding insert_by
count-insert_by p le x [] = refl
count-insert_by p le x (y ∷ ys) = ground (arith, count-insert_by p le x ys)

pub count-sort_by :
    (p : ReaderSample → Bool) (le : ReaderSample → ReaderSample → Bool) (xs : List ReaderSample)
    → count p (sort_by le xs) ≡ count p xs
unfolding sort_by
count-sort_by p le [] = refl
count-sort_by p le (x ∷ xs) =
    ground (arith, count-insert_by p le x (sort_by le xs), count-sort_by p le xs)

pub count-append_one :
    (p : ReaderSample → Bool) (xs : List ReaderSample) (x : ReaderSample)
    → count p (xs ++ x ∷ []) ≡ count p xs + (if p x then 1 else 0)
count-append_one p [] x = ground arith
count-append_one p (y ∷ ys) x = ground (arith, count-append_one p ys x)

pub count-le :
    (p q : ReaderSample → Bool) (xs : List ReaderSample)
    → ((x : ReaderSample) → q x ≡ true → p x ≡ true)
    → count q xs ≤ count p xs
count-le p q [] h = omega arith
count-le p q (x ∷ xs) h = ground (arith, count-le p q xs h, h x)

-- The list lost one sample that `p` counts, and no other.
record Lost (p : ReaderSample → Bool) (xs ys : List ReaderSample) : Type 0 where
  pub counted : count p xs ≡ suc (count p ys)
  pub fewer : (q : ReaderSample → Bool) → count q ys ≤ count q xs

Lost-cons :
    (h : InstanceHandle) (x : ReaderSample) (xs ys : List ReaderSample)
    → is_alive_of h x ≡ false
    → Lost (is_alive_of h) xs ys
    → Lost (is_alive_of h) (x ∷ xs) (x ∷ ys)
Lost-cons h x xs ys e l = record {
  counted = rw e l.counted;
  fewer = λ q. elim (Bool-cases (q x)) [
    | inl t ↦ rw t (omega (arith, l.fewer q))
    | inr f ↦ rw f (l.fewer q)
  ];
}

Lost-head :
    (h : InstanceHandle) (x : ReaderSample) (xs : List ReaderSample)
    → is_alive_of h x ≡ true
    → Lost (is_alive_of h) (x ∷ xs) xs
Lost-head h x xs e = record {
  counted = rw e refl;
  fewer = λ q. elim (Bool-cases (q x)) [ inl t ↦ rw t (omega arith) | inr f ↦ rw f (omega arith) ];
}

remove_first_alive-Lost :
    (h : InstanceHandle) (xs : List ReaderSample)
    → 1 ≤ count (is_alive_of h) xs
    → Returns (Lost (is_alive_of h) xs) (remove_first_alive h xs)
unfolding remove_first_alive
remove_first_alive-Lost h [] some_left = absurd (omega arith)
remove_first_alive-Lost h (x ∷ xs) some_left = elim (Bool-cases (is_alive_of h x)) [
  | inl e ↦ rw e (Lost-head h x xs e)
  | inr e ↦ rw e (
      Returns-bind (Lost (is_alive_of h) xs) (Lost (is_alive_of h) (x ∷ xs))
        (remove_first_alive h xs) _ (remove_first_alive-Lost h xs (rw e at some_left))
        (λ ys l. Lost-cons h x xs ys e l))
]

-- At least one sample is kept of an instance, and a u32 counts them.
abbrev pub IsDepth : HistoryQosPolicyKind → Type 0
IsDepth keep_all = Unit
IsDepth (keep_last depth) = (1 ≤ depth) × (depth < 2 ^ 32)

abbrev pub FitsDepth : HistoryQosPolicyKind → ℕ → Type 0
FitsDepth keep_all n = Unit
FitsDepth (keep_last depth) n = n ≤ depth

-- There is room for one more sample of the instance in the history.
pub record Roomy (history : HistoryQosPolicyKind) (h : InstanceHandle) (xs ys : List ReaderSample)
    : Type 0 where
  pub fewer : (q : ReaderSample → Bool) → count q ys ≤ count q xs
  pub room : FitsDepth history (suc (count (is_alive_of h) ys))

pub make_room-Roomy :
    (history : HistoryQosPolicyKind) (h : InstanceHandle) (xs : List ReaderSample)
    → IsDepth history
    → FitsDepth history (count (is_alive_of h) xs)
    → Returns (Roomy history h xs) (make_room history h xs)
unfolding make_room
make_room-Roomy keep_all h xs d f = record { fewer = λ q. omega arith; room = tt }
make_room-Roomy (keep_last depth) h xs d f =
    elim (Bool-cases (depth == count (is_alive_of h) xs % 2 ^ 32)) [
      | inl e ↦ rw e (
          Returns-map (Lost (is_alive_of h) xs) (Roomy (keep_last depth) h xs) _
            (λ ys l. record { fewer = l.fewer; room = omega (arith, l.counted, f) })
            (remove_first_alive-Lost h xs (ground arith)))
      | inr e ↦ rw e (record { fewer = λ q. omega arith; room = ground arith })
    ]
