-- ===== src/Dds/DataWriter/Writing/Limits.antt =====
-- The samples of the instances of a writer, and the limits on them.
use dust_dds.Base.{
  ℕ, suc, ◌+◌, ◌≤◌, ◌≡◌, refl, arith, false, Option, none, some, List, [], ◌∷◌, length, ◌==◌, All,
  Bool-cases, inl, inr, ap, if◌then◌else◌,
}
use mathlib.Core.Path.{subst}
use dust_dds.Transport.Types.{SequenceNumber}
use dust_dds.Dds.Handles.{
  InstanceHandle, HashMap, handle_eq, handle_eq_self, get, insert, contains_key,
}
use dust_dds.Dds.Qos.{
  Length, unlimited, limited, HistoryQosPolicyKind, keep_last, keep_all, DataWriterQos,
}
use dust_dds.Dds.DataReader.Adding.Limits.{IsDepth, FitsDepth}
use dust_dds.Dds.DataReader.Adding.Bounds.{FitsLength, FitsLength-le, FitsDepth-le}
use dust_dds.Dds.DataWriter.Writing.{
  total_samples, samples_of, too_many_of_instance, too_many_instances,
}

-- A queue of `n` samples is within the history's depth and the limit for an instance.
abbrev pub FitsQueue : DataWriterQos → ℕ → Type 0
FitsQueue q n = FitsDepth q.history n × FitsLength q.resource_limits.max_samples_per_instance n

abbrev pub AllFit : DataWriterQos → HashMap (List SequenceNumber) → Type 0
AllFit q m = All (λ entry. FitsQueue q (length entry.1)) m

-- The queues are within the history's depth and the limit for an instance, the samples of all of
-- them and the number of instances within theirs.
pub record IsBounded (q : DataWriterQos) (m : HashMap (List SequenceNumber)) : Type 0 where
  pub queues : AllFit q m
  pub samples : FitsLength q.resource_limits.max_samples (total_samples m)
  pub instances : FitsLength q.resource_limits.max_instances (length m)

-- There is room for one sample.
abbrev pub IsPositive : Length → Type 0
IsPositive unlimited = Unit
IsPositive (limited a) = 1 ≤ a

pub AllFit-insert :
    (q : DataWriterQos) (h : InstanceHandle) (s : List SequenceNumber)
    (m : HashMap (List SequenceNumber))
    → FitsQueue q (length s)
    → AllFit q m
    → AllFit q (insert h s m)
unfolding insert
AllFit-insert q h s [] fits all = (fits, tt)
AllFit-insert q h s ((k, t) ∷ m) fits all = elim (Bool-cases (handle_eq k h)) [
  | inl e ↦ rw e (fits, all.1)
  | inr e ↦ rw e (all.0, AllFit-insert q h s m fits all.1)
]

abbrev QueueFits : DataWriterQos → Option (List SequenceNumber) → Type 0
QueueFits q none = Unit
QueueFits q (some s) = FitsQueue q (length s)

pub AllFit-get :
    (q : DataWriterQos) (h : InstanceHandle) (s : List SequenceNumber)
    (m : HashMap (List SequenceNumber))
    → AllFit q m
    → get h m ≡ some s
    → FitsQueue q (length s)
unfolding get
AllFit-get q h s [] all e = absurd (cc e)
AllFit-get q h s ((k, t) ∷ m) all e = elim (Bool-cases (handle_eq k h)) [
  | inl this ↦ subst (QueueFits q) (rw this at e) all.0
  | inr other ↦ AllFit-get q h s m all.1 (rw other at e)
]

pub total_samples-insert :
    (h : InstanceHandle) (s : List SequenceNumber) (m : HashMap (List SequenceNumber))
    → total_samples (insert h s m) + length (samples_of h m) ≡ total_samples m + length s
unfolding total_samples insert get
total_samples-insert h s [] = omega arith
total_samples-insert h s ((k, t) ∷ m) = elim (Bool-cases (handle_eq k h)) [
  | inl e ↦ rw (e, samples_of) (omega arith)
  | inr e ↦ rw (e, samples_of) (omega (arith, total_samples-insert h s m))
]

-- A queue that is not full has room for one more.
pub room_in_queue :
    (history : HistoryQosPolicyKind) (limit : Length) (s : List SequenceNumber)
    → too_many_of_instance limit history (some s) ≡ false
    → FitsDepth history (suc (length s))
    → FitsLength limit (suc (length s))
unfolding too_many_of_instance
room_in_queue history unlimited s free fits = tt
room_in_queue keep_all (limited limit) s free fits = ground arith
room_in_queue (keep_last depth) (limited limit) s free fits = ground arith

pub room_in_depth :
    (depth n : ℕ)
    → (n == depth) ≡ false
    → FitsDepth (keep_last depth) n
    → FitsDepth (keep_last depth) (suc n)
room_in_depth depth n other fits = ground arith

pub fits_one :
    (q : DataWriterQos)
    → IsDepth q.history
    → IsPositive q.resource_limits.max_samples_per_instance
    → FitsQueue q 1
fits_one q deep positive =
    (depth q.history deep, limit q.resource_limits.max_samples_per_instance positive)
  where
    depth : (k : HistoryQosPolicyKind) → IsDepth k → FitsDepth k 1
    depth keep_all d = tt
    depth (keep_last n) d = d.0

    limit : (l : Length) → IsPositive l → FitsLength l 1
    limit unlimited p = tt
    limit (limited a) p = p

pub FitsQueue-le : (q : DataWriterQos) (m n : ℕ) → n ≤ m → FitsQueue q m → FitsQueue q n
FitsQueue-le q m n le fits = (FitsDepth-le q.history m n le fits.0, FitsLength-le _ m n le fits.1)

pub samples_of-some :
    (h : InstanceHandle) (s : List SequenceNumber) (m : HashMap (List SequenceNumber))
    → get h m ≡ some s
    → samples_of h m ≡ s
samples_of-some h s m e = rw (e, samples_of) refl

pub samples_of-none :
    (h : InstanceHandle) (m : HashMap (List SequenceNumber)) → get h m ≡ none → samples_of h m ≡ []
samples_of-none h m e = rw (e, samples_of) refl

-- An instance that is there is written over.
pub length-insert-insert :
    (h : InstanceHandle) (s t : List SequenceNumber) (m : HashMap (List SequenceNumber))
    → length (insert h s (insert h t m)) ≡ length (insert h s m)
unfolding insert
length-insert-insert h s t [] = rw (handle_eq_self h) refl
length-insert-insert h s t ((k, u) ∷ m) = elim (Bool-cases (handle_eq k h)) [
  | inl e ↦ rw (e, e) refl
  | inr e ↦ rw (e, e) (ap (λ (n : ℕ). suc n) (length-insert-insert h s t m))
]

length-insert :
    (h : InstanceHandle) (s : List SequenceNumber) (m : HashMap (List SequenceNumber))
    → length (insert h s m) ≡ length m + (if contains_key h m then 0 else 1)
unfolding insert contains_key get
length-insert h s [] = refl
length-insert h s ((k, u) ∷ m) = elim (Bool-cases (handle_eq k h)) [
  | inl e ↦ rw (e, contains_key) (omega arith)
  | inr e ↦ rw (e, contains_key) (omega (arith, length-insert h s m))
]

pub room_for_instance :
    (l : Length) (h : InstanceHandle) (s : List SequenceNumber) (m : HashMap (List SequenceNumber))
    → too_many_instances l h m ≡ false
    → FitsLength l (length m)
    → FitsLength l (length (insert h s m))
unfolding too_many_instances
room_for_instance unlimited h s m free fits = tt
room_for_instance (limited a) h s m free fits = ground (arith, length-insert h s m)
