-- ===== src/Rtps/ReaderProxy/Unsent.antt =====
-- The changes that are above what was sent.
use dust_dds.Base.{
  ℕ, suc, ◌∷◌, sym, ◌≤◌, ◌<◌, ◌≡◌, refl, ap, ◌∙◌, arith, true, ◌&&◌, Option, none, some, List, [],
  ltb, max_of, retain, contains, minimum, length,
}
use dust_dds.Base.Minimum.{
  IsMinimum, minimum-IsMinimum, contains-retain, length-retain-lt, length-retain_all,
}
use dust_dds.Transport.History.{CacheChange}
use dust_dds.Rtps.ReaderProxy.{
  RtpsReaderProxy, sequence_numbers, next_unsent_change, set_highest_sent_seq_num,
}

-- The numbers above what was sent.
abbrev pub unsent : RtpsReaderProxy → List CacheChange → List ℕ
unsent p changes = retain (λ sn. ltb p.highest_sent_seq_num sn) (sequence_numbers changes)

-- What `next_unsent_change` gives: the smallest change above the highest sent, if there is one.
abbrev pub NextUnsent : RtpsReaderProxy → List CacheChange → Option ℕ → Type 0
NextUnsent p changes none = unsent p changes ≡ []
NextUnsent p changes (some sn) =
    (contains sn (sequence_numbers changes) ≡ true)
    × (p.highest_sent_seq_num < sn)
    × ((x : ℕ) → contains x (sequence_numbers changes) ≡ true → p.highest_sent_seq_num < x → sn ≤ x)

next_lem :
    (p : RtpsReaderProxy) (changes : List CacheChange) (o : Option ℕ)
    → IsMinimum (unsent p changes) o
    → NextUnsent p changes o
next_lem p changes none m = m
next_lem p changes (some sn) (m, least) = (
  ground (arith, kept),
  ground (arith, kept),
  λ x h lt. least x (contains-retain _ x (sequence_numbers changes) ∙ ground arith),
)
  where
    kept : (contains sn (sequence_numbers changes) && ltb p.highest_sent_seq_num sn) ≡ true
    kept = sym (contains-retain _ sn (sequence_numbers changes)) ∙ m

-- `next_unsent_change` gives the smallest change above the highest sent, and nothing exactly when
-- there is no such change.
pub next_unsent_change-NextUnsent :
    (p : RtpsReaderProxy) (changes : List CacheChange)
    → NextUnsent p changes (next_unsent_change p changes)
unfolding next_unsent_change
next_unsent_change-NextUnsent p changes =
    next_lem p changes (minimum (unsent p changes)) (minimum-IsMinimum (unsent p changes))

pub set_highest_sent_lem :
    (p : RtpsReaderProxy) (sn : ℕ)
    → set_highest_sent_seq_num p sn
      ≡ record p { highest_sent_seq_num = max_of p.highest_sent_seq_num sn }
unfolding set_highest_sent_seq_num
set_highest_sent_lem p sn = ground arith

-- Sending an unsent change leaves fewer of them.
pub unsent_shrinks :
    (p q : RtpsReaderProxy) (changes : List CacheChange) (sn : ℕ)
    → contains sn (sequence_numbers changes) ≡ true
    → p.highest_sent_seq_num < sn
    → q.highest_sent_seq_num ≡ sn
    → length (unsent q changes) < length (unsent p changes)
unsent_shrinks p q changes sn m lt e =
    length-retain-lt (λ x. ltb q.highest_sent_seq_num x) (λ x. ltb p.highest_sent_seq_num x) sn
      (sequence_numbers changes) (λ x h. ground (arith, e)) m (ground (arith, e)) (ground arith)

pub unsent-le :
    (p : RtpsReaderProxy) (changes : List CacheChange) → length (unsent p changes) ≤ length changes
unsent-le p changes = omega (
  arith,
  length-retain_all (λ x. ltb p.highest_sent_seq_num x) (sequence_numbers changes),
  length-map changes,
)
  where
    length-map : (cs : List CacheChange) → length (sequence_numbers cs) ≡ length cs
    length-map [] = refl
    length-map (c ∷ cs) = ap suc (length-map cs)

-- A change above the highest sent number is unsent.
pub present :
    (p : RtpsReaderProxy) (changes : List CacheChange) (a : ℕ)
    → p.highest_sent_seq_num < a
    → contains a (sequence_numbers changes) ≡ true
    → contains a (unsent p changes) ≡ true
present p changes a above there =
    contains-retain (λ sn. ltb p.highest_sent_seq_num sn) a (sequence_numbers changes)
    ∙ ground (arith, there)
