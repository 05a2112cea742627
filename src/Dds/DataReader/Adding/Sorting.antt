-- ===== src/Dds/DataReader/Adding/Sorting.antt =====
-- `put_in_order` sorts and loses no sample.
use dust_dds.Base.{
  ◌≡◌, refl, arith, Bool, true, false, Option, none, some, List, [], ◌∷◌, length, any, All, ltb,
  Bool-cases, inl, inr,
}
use dust_dds.Base.Returns.{Returns}
use dust_dds.Dds.Time.{Time, time_le-total, time_le_trans}
use dust_dds.Dds.Qos.{DestinationOrderQosPolicyKind, by_reception_timestamp, by_source_timestamp}
use dust_dds.Dds.DataReader.{ReaderSample}
use dust_dds.Dds.DataReader.Adding.{
  count, timestamp_le, source_le, reception_le, insert_by, sort_by, put_in_order, has_no_timestamp,
}
use dust_dds.Dds.DataReader.Adding.Limits.{count-sort_by}

timestamp_le-total : (a b : Option Time) → timestamp_le a b ≡ false → timestamp_le b a ≡ true
timestamp_le-total none b h = absurd (cc h)
timestamp_le-total (some a) none h = refl
timestamp_le-total (some a) (some b) h = time_le-total a b h

timestamp_le_trans :
    (a b c : Option Time)
    → timestamp_le a b ≡ true
    → timestamp_le b c ≡ true
    → timestamp_le a c ≡ true
timestamp_le_trans none b c h k = refl
timestamp_le_trans (some a) none c h k = absurd (cc h)
timestamp_le_trans (some a) (some b) none h k = absurd (cc k)
timestamp_le_trans (some a) (some b) (some c) h k = time_le_trans a b c h k

module _ (le : ReaderSample → ReaderSample → Bool) where
  -- Every sample is before all that follow it.
  abbrev pub IsSorted : List ReaderSample → Type 0
  IsSorted [] = Unit
  IsSorted (x ∷ xs) = All (λ y. le x y ≡ true) xs × IsSorted xs

  module _ (total : (a b : ReaderSample) → le a b ≡ false → le b a ≡ true)
      (trans : (a b c : ReaderSample) → le a b ≡ true → le b c ≡ true → le a c ≡ true) where
    All-before :
        (x y : ReaderSample) (xs : List ReaderSample)
        → le x y ≡ true
        → All (λ z. le y z ≡ true) xs
        → All (λ z. le x z ≡ true) xs
    All-before x y [] h k = tt
    All-before x y (z ∷ zs) h k = (trans x y z h k.0, All-before x y zs h k.1)

    All-insert_by :
        (w x : ReaderSample) (xs : List ReaderSample)
        → le w x ≡ true
        → All (λ z. le w z ≡ true) xs
        → All (λ z. le w z ≡ true) (insert_by le x xs)
    unfolding insert_by
    All-insert_by w x [] h k = (h, tt)
    All-insert_by w x (y ∷ ys) h k = elim (Bool-cases (le x y)) [
      | inl e ↦ rw e (h, k)
      | inr e ↦ rw e (k.0, All-insert_by w x ys h k.1)
    ]

    insert_by-IsSorted :
        (x : ReaderSample) (xs : List ReaderSample) → IsSorted xs → IsSorted (insert_by le x xs)
    unfolding insert_by
    insert_by-IsSorted x [] s = (tt, tt)
    insert_by-IsSorted x (y ∷ ys) s = elim (Bool-cases (le x y)) [
      | inl e ↦ rw e ((e, All-before x y ys e s.0), s)
      | inr e ↦ rw e (All-insert_by y x ys (total x y e) s.0, insert_by-IsSorted x ys s.1)
    ]

    sort_by-IsSorted : (xs : List ReaderSample) → IsSorted (sort_by le xs)
    unfolding sort_by
    sort_by-IsSorted [] = tt
    sort_by-IsSorted (x ∷ xs) = insert_by-IsSorted x (sort_by le xs) (sort_by-IsSorted xs)

-- Sorted by the timestamps that the QoS names, with the same samples as `ccs`.
abbrev pub order_of : DestinationOrderQosPolicyKind → ReaderSample → ReaderSample → Bool
order_of by_reception_timestamp = reception_le
order_of by_source_timestamp = source_le

abbrev pub IsOrdered :
    DestinationOrderQosPolicyKind → List ReaderSample → List ReaderSample → Type 0
IsOrdered order ccs sorted =
    IsSorted (order_of order) sorted × ((p : ReaderSample → Bool) → count p sorted ≡ count p ccs)

-- Each sample has a source timestamp where they are ordered by it.
abbrev pub IsTimed : DestinationOrderQosPolicyKind → List ReaderSample → Type 0
IsTimed by_reception_timestamp ccs = Unit
IsTimed by_source_timestamp ccs = count has_no_timestamp ccs ≡ 0

none_missing :
    (ccs : List ReaderSample) → count has_no_timestamp ccs ≡ 0 → any has_no_timestamp ccs ≡ false
none_missing [] e = refl
none_missing (cc ∷ ccs) e = ground (arith, none_missing ccs)

sort_by-IsOrdered :
    (order : DestinationOrderQosPolicyKind) (ccs : List ReaderSample)
    → IsOrdered order ccs (sort_by (order_of order) ccs)
sort_by-IsOrdered by_reception_timestamp ccs = (
  sort_by-IsSorted reception_le (λ a b. time_le-total a.reception_timestamp b.reception_timestamp)
      (λ a b c. time_le_trans a.reception_timestamp b.reception_timestamp c.reception_timestamp)
      ccs,
  λ p. count-sort_by p reception_le ccs,
)
sort_by-IsOrdered by_source_timestamp ccs = (
  sort_by-IsSorted source_le (λ a b. timestamp_le-total a.source_timestamp b.source_timestamp)
      (λ a b c. timestamp_le_trans a.source_timestamp b.source_timestamp c.source_timestamp) ccs,
  λ p. count-sort_by p source_le ccs,
)

-- Where the samples are ordered by source, each has a source timestamp. Then `put_in_order`
-- returns: no sample is later, by the timestamp of the order, than one that follows it, and every
-- test holds of as many samples as before.
pub put_in_order-IsOrdered :
    (order : DestinationOrderQosPolicyKind) (ccs : List ReaderSample)
    → IsTimed order ccs
    → Returns (IsOrdered order ccs) (put_in_order order ccs)
unfolding put_in_order
put_in_order-IsOrdered by_reception_timestamp ccs timed =
    sort_by-IsOrdered by_reception_timestamp ccs
put_in_order-IsOrdered by_source_timestamp ccs timed = elim (Bool-cases (ltb 1 (length ccs))) [
  | inl e ↦ rw (e, none_missing ccs timed) (sort_by-IsOrdered by_source_timestamp ccs)
  | inr e ↦ rw e (sort_by-IsOrdered by_source_timestamp ccs)
]
