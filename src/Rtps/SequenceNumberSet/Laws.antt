-- ===== src/Rtps/SequenceNumberSet/Laws.antt =====
-- What `new` writes into a SequenceNumberSet, `set` reads back.
use Prim.Native.Nat.{bit_and, bit_or}
use native.Mathlib.Nat.{pow-suc}
use dust_dds.Base.{
  ℕ, zero, suc, ◌+◌, ◌-◌, ◌*◌, ◌/◌, ◌%◌, ◌^◌, ◌≤◌, ◌<◌, ◌≡◌, refl, sym, ap, ◌∙◌, ◌⊎◌, inl, inr,
  arith, List, [], ◌∷◌, Bool, true, false, ◌||◌, ◌&&◌, ret, ltb, leb, ◌==◌, if◌then◌else◌, get_or,
  set, length, length-set, get_or-set_self, get_or-set_ne, Bool-cases, contains, All,
}
use dust_dds.Base.Bits.{bit_at, bit_at-lt, zero-bit_at, bit_and-pow, bit_at-bit_or}
use dust_dds.Base.Increasing.{Increasing, Increasing-ext, Increasing-mono, contains_below}
use dust_dds.Transport.Types.{SequenceNumber}
use dust_dds.Rtps.SequenceNumberSet.{
  SequenceNumberSet, mask, delta, insert, insert_all, empty, new, has_bit, elements_from, elements,
}

pow_pos : (k : ℕ) → 0 < 2 ^ k
pow_pos zero = omega arith
pow_pos (suc k) = omega (arith, pow-suc 2 k, pow_pos k)

scaled_test : (b p x : ℕ) → b < 2 → 0 < p → x ≡ b * p → (x == p) ≡ (b == 1)
scaled_test zero p x h hp e = ground arith
scaled_test (suc zero) p x h hp e = ground arith
scaled_test (suc (suc b)) p x h hp e = absurd (omega arith)

-- The test reads one bit.
mask_test : (w k : ℕ) → (bit_and w (2 ^ k) == 2 ^ k) ≡ (bit_at w k == 1)
mask_test w k = scaled_test (bit_at w k) (2 ^ k) _ (bit_at-lt w k) (pow_pos k) (bit_and-pow k w)

has_bit_lem :
    (bitmap : List ℕ) (d : ℕ)
    → has_bit bitmap d ≡ (bit_at (get_or bitmap (d / 32) 0) (31 - d % 32) == 1)
unfolding has_bit
has_bit_lem bitmap d = mask_test (get_or bitmap (d / 32) 0) (31 - d % 32)

word_set :
    (bitmap : List ℕ) (d e : ℕ)
    → d / 32 < length bitmap
    → (bit_at
          (get_or (set bitmap (d / 32) (bit_or (get_or bitmap (d / 32) 0) (mask d))) (e / 32) 0)
          (31 - e % 32)
        == 1)
      ≡ (d == e || bit_at (get_or bitmap (e / 32) 0) (31 - e % 32) == 1)
word_set bitmap d e h = ground (
  arith,
  get_or-set_self bitmap (d / 32) (bit_or (get_or bitmap (d / 32) 0) (mask d)) 0 h,
  get_or-set_ne bitmap (d / 32) (e / 32) (bit_or (get_or bitmap (d / 32) 0) (mask d)) 0,
  bit_at-bit_or (31 - d % 32) (get_or bitmap (d / 32) 0) (31 - e % 32),
)

-- Setting bit `d` leaves every other bit.
has_bit-set :
    (bitmap : List ℕ) (d e : ℕ)
    → d / 32 < length bitmap
    → has_bit (set bitmap (d / 32) (bit_or (get_or bitmap (d / 32) 0) (mask d))) e
      ≡ (d == e || has_bit bitmap e)
has_bit-set bitmap d e h =
    rw (has_bit_lem bitmap e, has_bit_lem (set bitmap (d / 32) _) e) (word_set bitmap d e h)

-- The bits of `s` are those of `p`, and `num_bits` covers them.
record Represents (base : SequenceNumber) (p : ℕ → Bool) (s : SequenceNumberSet) : Type 0 where
  same_base : s.base ≡ base
  words : length s.bitmap ≡ 8
  bits : (e : ℕ) → has_bit s.bitmap e ≡ p e
  bounded : s.num_bits ≤ 256
  covered : (e : ℕ) → p e ≡ true → e < s.num_bits

-- The numbers that a set with this base can hold.
abbrev pub InWindow : SequenceNumber → SequenceNumber → Type 0
InWindow base sn = (base ≤ sn) × (sn < base + 256)

delta-InWindow : (base sn : ℕ) → InWindow base sn → delta base sn ≡ sn - base
delta-InWindow base sn h = omega arith

or_cases : (a b : ℕ) (p : Bool) → (a == b || p) ≡ true → (a ≡ b) ⊎ (p ≡ true)
or_cases a b p h = ground arith

module _ (base : ℕ) (p : ℕ → Bool) (s : SequenceNumberSet) (sn : ℕ) (r : Represents base p s) where
  abbrev offset : ℕ
  offset = sn - base

  abbrev inserted : SequenceNumberSet
  inserted = record s {
    bitmap = set s.bitmap (offset / 32) (bit_or (get_or s.bitmap (offset / 32) 0) (mask offset));
    num_bits = if ltb s.num_bits ((offset + 1) % 2 ^ 32) then (offset + 1) % 2 ^ 32 else s.num_bits;
  }

  insert-inserted : InWindow base sn → insert s sn ≡ ret inserted
  unfolding insert
  insert-inserted h = rw (r.same_base, delta-InWindow base sn h) (ground (arith, r.words))

  inserted-Represents : InWindow base sn → Represents base (λ e. offset == e || p e) inserted
  inserted-Represents h = record {
    same_base = r.same_base;
    words = length-set s.bitmap _ _ ∙ r.words;
    bits = λ e. rw (has_bit-set s.bitmap offset e (omega (arith, r.words)), r.bits e);
    bounded = ground (arith, r.bounded);
    covered = λ e he. elim (or_cases offset e (p e) he) [
      | inl q ↦ ground (arith, q)
      | inr q ↦ ground (arith, r.covered e q)
    ];
  }

Represents-ext :
    (base : ℕ) (p q : ℕ → Bool) (s : SequenceNumberSet)
    → ((e : ℕ) → p e ≡ q e)
    → Represents base p s
    → Represents base q s
Represents-ext base p q s same r = record {
  same_base = r.same_base;
  words = r.words;
  bits = λ e. r.bits e ∙ same e;
  bounded = r.bounded;
  covered = λ e h. r.covered e (same e ∙ h);
}

shifted_test :
    (base sn e : ℕ) (c p : Bool)
    → base ≤ sn
    → (c || (sn - base == e || p)) ≡ ((sn == base + e || c) || p)
shifted_test base sn e c p h = ground arith

insert_all-Represents :
    (base : ℕ) (p : ℕ → Bool) (s : SequenceNumberSet) (sns : List ℕ)
    → Represents base p s
    → All (InWindow base) sns
    → (s' : SequenceNumberSet) × (insert_all s sns ≡ ret s')
      × Represents base (λ e. contains (base + e) sns || p e) s'
unfolding insert_all
insert_all-Represents base p s [] r h = (s, refl, r)
insert_all-Represents base p s (sn ∷ sns) r h =
    let next : SequenceNumberSet = inserted base p s sn r in
    let (s', done, r') =
      insert_all-Represents base (λ e. sn - base == e || p e) next sns
        (inserted-Represents base p s sn r h.0) h.1 in
    (
      s',
      rw (insert-inserted base p s sn r h.0) done,
      Represents-ext base _ _ s' (λ e. shifted_test base sn e _ (p e) h.0.0) r',
    )

zero_word : (words : List ℕ) (k : ℕ) → All (λ w. w ≡ 0) words → get_or words k 0 ≡ 0
zero_word [] k h = refl
zero_word (w ∷ words) zero h = h.0
zero_word (w ∷ words) (suc k) h = zero_word words k h.1

empty_bit : (base e : ℕ) → has_bit (empty base).bitmap e ≡ false
empty_bit base e =
    has_bit_lem (empty base).bitmap e
    ∙ rw (zero_word (empty base).bitmap (e / 32) (omega arith), zero-bit_at (31 - e % 32))

new-Represents :
    (base : ℕ) (sns : List ℕ)
    → All (InWindow base) sns
    → (s : SequenceNumberSet) × (new base sns ≡ ret s)
      × Represents base (λ e. contains (base + e) sns || false) s
unfolding new
new-Represents base sns h =
    insert_all-Represents base (λ e. false) (empty base) sns
      (record {
        same_base = refl;
        words = refl;
        bits = empty_bit base;
        bounded = omega arith;
        covered = λ e q. absurd (cc q);
      })
      h

elements_from-Increasing :
    (s : SequenceNumberSet) (i n : ℕ) → Increasing (s.base + i) (elements_from s i n)
unfolding elements_from
elements_from-Increasing s i zero = tt
elements_from-Increasing s i (suc n) =
    let rest = elements_from-Increasing s (suc i) n in
    elim (Bool-cases (has_bit s.bitmap i)) [
      | inl b ↦
          rw b
            (omega arith, Increasing-mono (suc (s.base + i)) (s.base + suc i) _ (omega arith) rest)
      | inr b ↦ rw b (Increasing-mono (s.base + i) (s.base + suc i) _ (omega arith) rest)
    ]

contains-elements_from :
    (s : SequenceNumberSet) (e i n : ℕ)
    → contains (s.base + e) (elements_from s i n) ≡ (leb i e && ltb e (i + n) && has_bit s.bitmap e)
unfolding elements_from
contains-elements_from s e i zero = ground arith
contains-elements_from s e i (suc n) =
    ground (arith, contains-elements_from s e (suc i) n, Bool-cases (has_bit s.bitmap i), index_eq)
  where
    index_eq : i ≡ e → has_bit s.bitmap i ≡ has_bit s.bitmap e
    index_eq q = ap (has_bit s.bitmap) q

contains_outside :
    (base a : ℕ) (sns : List ℕ) → All (InWindow base) sns → a < base → contains a sns ≡ false
contains_outside base a [] h lt = refl
contains_outside base a (sn ∷ sns) h lt = ground (arith, contains_outside base a sns h.1 lt, h.0.0)

elements-Represents :
    (base e : ℕ) (p : ℕ → Bool) (s : SequenceNumberSet)
    → Represents base p s
    → contains (base + e) (elements s) ≡ p e
unfolding elements
elements-Represents base e p s r =
    rw (← r.same_base)
      (ground (arith, contains-elements_from s e 0 s.num_bits, r.bits e, r.covered e))

or_false : (c : Bool) → (c || false) ≡ c
or_false true = refl
or_false false = refl

elements_member :
    (base a : ℕ) (sns : List ℕ) (s : SequenceNumberSet)
    → All (InWindow base) sns
    → Represents base (λ e. contains (base + e) sns || false) s
    → Increasing base (elements s)
    → (base ≤ a) ⊎ (a < base)
    → contains a (elements s) ≡ contains a sns
elements_member base a sns s h r inc (inl le) =
    let there : base + (a - base) ≡ a = omega arith in
    rw there at (elements-Represents base (a - base) _ s r ∙ or_false _)
elements_member base a sns s h r inc (inr lt) =
    contains_below a base (elements s) inc lt ∙ sym (contains_outside base a sns h lt)

-- `set` yields the numbers that `new` was given, and no other, in increasing order.
pub elements-new :
    (base : SequenceNumber) (sns : List SequenceNumber)
    → All (InWindow base) sns
    → (s : SequenceNumberSet) × (new base sns ≡ ret s)
      × (s.base ≡ base)
      × (s.num_bits ≤ 256)
      × Increasing base (elements s)
      × ((a : SequenceNumber) → contains a (elements s) ≡ contains a sns)
unfolding elements
elements-new base sns h =
    let (s, done, r) = new-Represents base sns h in
    let inc : Increasing base (elements s) =
      Increasing-mono base (s.base + 0) _ (omega (arith, r.same_base))
        (elements_from-Increasing s 0 s.num_bits) in
    (s, done, r.same_base, r.bounded, inc, λ a. elements_member base a sns s h r inc (omega arith))

-- A strictly increasing list of numbers survives the bitmap unchanged.
pub elements-new-Increasing :
    (base : SequenceNumber) (sns : List SequenceNumber)
    → All (InWindow base) sns
    → Increasing base sns
    → (s : SequenceNumberSet) × (new base sns ≡ ret s) × (s.base ≡ base) × (elements s ≡ sns)
elements-new-Increasing base sns h i =
    let (s, done, same, bound, inc, mem) = elements-new base sns h in
    (s, done, same, Increasing-ext base (elements s) sns inc i mem)
