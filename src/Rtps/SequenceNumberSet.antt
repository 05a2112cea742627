-- ===== src/Rtps/SequenceNumberSet.antt =====
-- SequenceNumberSet of dds/src/rtps/messages/submessage_elements.rs: a base and a bitmap of eight
-- 32-bit words, the most significant bit of each first.
use Prim.Native.Nat.{bit_and, bit_or}
use dust_dds.Base.{
  ℕ, zero, suc, ◌+◌, ◌-◌, ◌/◌, ◌%◌, ◌^◌, Bool, List, [], ◌∷◌, Outcome, ret, panic, stuck, ◌>>=◌,
  ltb, ◌==◌, if◌then◌else◌, get_or, set, length,
}
use dust_dds.Transport.Types.{SequenceNumber}
pub mod Laws

pub record SequenceNumberSet : Type 0 where
  pub base : SequenceNumber
  pub num_bits : ℕ
  pub bitmap : List ℕ

-- `1 << (31 - delta_n % 32)`
abbrev pub mask : ℕ → ℕ
mask delta_n = 2 ^ (31 - delta_n % 32)

-- `(sequence_number - base) as u32`
abbrev pub delta : SequenceNumber → SequenceNumber → ℕ
delta base sequence_number = (sequence_number + 2 ^ 64 - base) % 2 ^ 32

-- One round of the loop of `new`: an index outside the bitmap panics.
pub insert : SequenceNumberSet → SequenceNumber → Outcome SequenceNumberSet
insert s sequence_number =
    let delta_n = delta s.base sequence_number in
    let bitmap_num = delta_n / 32 in
    if ltb bitmap_num (length s.bitmap)
    then ret (record s {
      bitmap = set s.bitmap bitmap_num (bit_or (get_or s.bitmap bitmap_num 0) (mask delta_n));
      num_bits =
          if ltb s.num_bits ((delta_n + 1) % 2 ^ 32) then (delta_n + 1) % 2 ^ 32 else s.num_bits;
    })
    else panic

pub insert_all : SequenceNumberSet → List SequenceNumber → Outcome SequenceNumberSet
insert_all s [] = ret s
insert_all s (sn ∷ sns) = insert s sn >>= λ s'. insert_all s' sns

-- `new` with no element: the loop does not run.
abbrev pub empty : SequenceNumber → SequenceNumberSet
empty base = record { base = base; num_bits = 0; bitmap = 0 ∷ 0 ∷ 0 ∷ 0 ∷ 0 ∷ 0 ∷ 0 ∷ 0 ∷ [] }

unfoldable pub new : SequenceNumber → List SequenceNumber → Outcome SequenceNumberSet
unfolding insert insert_all
new base sns = insert_all (empty base) sns

-- `self.set.bitmap[bitmap_num] & mask == mask`
pub has_bit : List ℕ → ℕ → Bool
has_bit bitmap delta_n = bit_and (get_or bitmap (delta_n / 32) 0) (mask delta_n) == mask delta_n

-- The iterator from `index` on, with `rounds` bits left.
pub elements_from : SequenceNumberSet → ℕ → ℕ → List SequenceNumber
elements_from s index zero = []
elements_from s index (suc rounds) =
    let rest = elements_from s (suc index) rounds in
    if has_bit s.bitmap index then (s.base + index) ∷ rest else rest

-- The numbers that `set` yields.
unfoldable pub elements : SequenceNumberSet → List SequenceNumber
unfolding elements_from has_bit
elements s = elements_from s 0 s.num_bits
