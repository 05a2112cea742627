-- ===== src/Dds/DataReader/Adding/Bounds.antt =====
-- The limits of the QoS on a reader's samples, before and after a sample is stored.
use dust_dds.Base.{
  ℕ, suc, ◌+◌, ◌≤◌, ◌≡◌, arith, Bool, true, false, none, List, ◌∷◌, any, length, refl, sym, ◌∙◌,
  if◌then◌else◌, Bool-cases, inl, inr,
}
use mathlib.Core.Path.{subst}
use dust_dds.Dds.Handles.{InstanceHandle, handle_eq, handle_eq_iff}
use dust_dds.Dds.Qos.{
  Length, unlimited, limited, DataReaderQos, HistoryQosPolicyKind, keep_last, keep_all,
  ResourceLimitsQosPolicy, usize_eq_length,
}
use dust_dds.Dds.DataReader.{ReaderSample}
use dust_dds.Dds.DataReader.Adding.{
  is_alive, is_of_instance, is_alive_of, count, rejection, handles_of,
}
use dust_dds.Dds.DataReader.Adding.Distinct.{
  IsDistinct, HasSamples, length-IsDistinct, member-handles_of, handles_of-IsDistinct, any→count,
  count→any,
}
use dust_dds.Dds.DataReader.Adding.Limits.{FitsDepth, Roomy}

abbrev pub FitsLength : Length → ℕ → Type 0
FitsLength unlimited n = Unit
FitsLength (limited a) n = n ≤ a

-- The alive samples are within max_samples, those of an instance within max_samples_per_instance and
-- its alive ones within the history's depth, and distinct instances with samples within
-- max_instances.
pub record IsBounded (q : DataReaderQos) (ccs : List ReaderSample) : Type 0 where
  pub samples : FitsLength q.resource_limits.max_samples (count is_alive ccs)
  pub samples_of_instance :
      (h : InstanceHandle)
      → FitsLength q.resource_limits.max_samples_per_instance (count (is_of_instance h) ccs)
  pub depth : (h : InstanceHandle) → FitsDepth q.history (count (is_alive_of h) ccs)
  pub instances :
      (hs : List InstanceHandle)
      → IsDistinct hs
      → HasSamples hs ccs
      → FitsLength q.resource_limits.max_instances (length hs)

pub FitsLength-le : (l : Length) (m n : ℕ) → n ≤ m → FitsLength l m → FitsLength l n
FitsLength-le unlimited m n le f = tt
FitsLength-le (limited a) m n le f = omega arith

FitsLength-room :
    (l : Length) (n : ℕ) → usize_eq_length n l ≡ false → FitsLength l n → FitsLength l (suc n)
unfolding usize_eq_length
FitsLength-room unlimited n e f = tt
FitsLength-room (limited a) n e f = ground arith

pub FitsDepth-le :
    (history : HistoryQosPolicyKind) (m n : ℕ) → n ≤ m → FitsDepth history m → FitsDepth history n
FitsDepth-le keep_all m n le f = tt
FitsDepth-le (keep_last depth) m n le f = omega arith

-- It is enough that the handles of the list are within max_instances.
pub instances_fit :
    (l : Length) (ccs : List ReaderSample)
    → FitsLength l (length (handles_of ccs))
    → (hs : List InstanceHandle) → IsDistinct hs
    → HasSamples hs ccs
    → FitsLength l (length hs)
instances_fit l ccs fits hs distinct has =
    FitsLength-le l (length (handles_of ccs)) (length hs)
      (length-IsDistinct hs (handles_of ccs) distinct (λ h e. member-handles_of h ccs ∙ has h e))
      fits

-- A sample that no limit rejects leaves room for itself.
rejection-none :
    (limits : ResourceLimitsQosPolicy) (h : InstanceHandle) (ccs : List ReaderSample)
    → rejection limits h ccs ≡ none
    → (usize_eq_length (count is_alive ccs) limits.max_samples ≡ false)
      × (usize_eq_length (count (is_of_instance h) ccs) limits.max_samples_per_instance ≡ false)
unfolding rejection
rejection-none limits h ccs e = ground arith

instance_free :
    (limits : ResourceLimitsQosPolicy) (h : InstanceHandle) (ccs : List ReaderSample)
    → any (is_of_instance h) ccs ≡ false
    → rejection limits h ccs ≡ none
    → usize_eq_length (length (handles_of ccs)) limits.max_instances ≡ false
unfolding rejection
instance_free limits h ccs fresh e = ground arith

-- An instance that no limit rejects has a sample or leaves room for one more instance.
instances-with :
    (q : DataReaderQos) (sample : ReaderSample) (ccs sorted : List ReaderSample)
    → IsBounded q ccs
    → rejection q.resource_limits sample.instance_handle ccs ≡ none
    → ((h : InstanceHandle)
        → any (is_of_instance h) sorted ≡ true
        → handle_eq sample.instance_handle h ≡ false
        → any (is_of_instance h) ccs ≡ true)
    → (hs : List InstanceHandle) → IsDistinct hs
    → HasSamples hs sorted
    → FitsLength q.resource_limits.max_instances (length hs)
instances-with q sample ccs sorted b free earlier hs distinct has =
    elim (Bool-cases (any (is_of_instance sample.instance_handle) ccs)) [
      | inl there ↦ b.instances hs distinct (λ h e.
          elim (Bool-cases (handle_eq sample.instance_handle h)) [
            | inl same ↦
                subst (λ k. any (is_of_instance k) ccs ≡ true)
                  ((handle_eq_iff sample.instance_handle h).0 same) there
            | inr other ↦ earlier h (has h e) other
          ])
      | inr fresh ↦
          FitsLength-le _ (suc (length (handles_of ccs))) _
            (length-IsDistinct hs (sample.instance_handle ∷ handles_of ccs) distinct (λ h e.
              elim (Bool-cases (handle_eq sample.instance_handle h)) [
                | inl same ↦ rw same refl
                | inr other ↦ rw other (member-handles_of h ccs ∙ earlier h (has h e) other)
              ]))
            (FitsLength-room _ (length (handles_of ccs))
              (instance_free q.resource_limits sample.instance_handle ccs fresh free)
              (b.instances (handles_of ccs) (handles_of-IsDistinct ccs)
                (λ h e. sym (member-handles_of h ccs) ∙ e)))
    ]

-- The bounds of the list that is kept, with the sample, which has room.
pub IsBounded-with :
    (q : DataReaderQos) (sample : ReaderSample) (ccs kept sorted : List ReaderSample)
    → IsBounded q ccs
    → rejection q.resource_limits sample.instance_handle ccs ≡ none
    → Roomy q.history sample.instance_handle ccs kept
    → ((p : ReaderSample → Bool) → count p sorted ≡ count p kept + (if p sample then 1 else 0))
    → IsBounded q sorted
IsBounded-with q sample ccs kept sorted b free room same = record {
  samples =
      FitsLength-le _ (suc (count is_alive ccs)) (count is_alive sorted)
        (ground (arith, same is_alive, room.fewer is_alive))
        (FitsLength-room _ (count is_alive ccs) (rejection-none _ _ _ free).0 b.samples);
  samples_of_instance = λ h. elim (Bool-cases (handle_eq sample.instance_handle h)) [
    | inl e ↦
        FitsLength-le _ (suc (count (is_of_instance h) ccs)) _
          (ground (arith, same (is_of_instance h), room.fewer (is_of_instance h)))
          (FitsLength-room _ (count (is_of_instance h) ccs)
            (subst
              (λ k.
                usize_eq_length (count (is_of_instance k) ccs)
                  q.resource_limits.max_samples_per_instance
                ≡ false)
              ((handle_eq_iff sample.instance_handle h).0 e) (rejection-none _ _ _ free).1)
            (b.samples_of_instance h))
    | inr e ↦
        FitsLength-le _ (count (is_of_instance h) ccs) _
          (ground (arith, same (is_of_instance h), room.fewer (is_of_instance h), e))
          (b.samples_of_instance h)
  ];
  depth = λ h. elim (Bool-cases (handle_eq sample.instance_handle h)) [
    | inl e ↦
        subst (λ k. FitsDepth q.history (count (is_alive_of k) sorted))
          ((handle_eq_iff sample.instance_handle h).0 e)
          (FitsDepth-le q.history (suc (count (is_alive_of sample.instance_handle) kept)) _
            (ground (arith, same (is_alive_of sample.instance_handle))) room.room)
    | inr e ↦
        FitsDepth-le q.history (count (is_alive_of h) ccs) _
          (ground (arith, same (is_alive_of h), room.fewer (is_alive_of h), e)) (b.depth h)
  ];
  instances = instances-with q sample ccs sorted b free (λ h e other.
      count→any (is_of_instance h) ccs (
        ground (
          arith,
          same (is_of_instance h),
          room.fewer (is_of_instance h),
          any→count (is_of_instance h) sorted e,
        )));
}

pub IsBounded-fewer :
    (q : DataReaderQos) (ccs kept : List ReaderSample)
    → IsBounded q ccs
    → ((p : ReaderSample → Bool) → count p kept ≤ count p ccs)
    → IsBounded q kept
IsBounded-fewer q ccs kept b fewer = record {
  samples = FitsLength-le _ _ _ (fewer is_alive) b.samples;
  samples_of_instance =
      λ h. FitsLength-le _ _ _ (fewer (is_of_instance h)) (b.samples_of_instance h);
  depth = λ h. FitsDepth-le _ _ _ (fewer (is_alive_of h)) (b.depth h);
  instances = λ hs distinct has. b.instances hs distinct (λ h e.
      count→any (is_of_instance h) ccs
        (omega (arith, fewer (is_of_instance h), any→count (is_of_instance h) kept (has h e))));
}
