-- ===== src/Dds/DataWriter/Writing/Evicting.antt =====
-- How a writer makes room for a sample.
use dust_dds.Base.{
  ℕ, zero, suc, ◌≤◌, ◌≡◌, refl, sym, ap, arith, Bool, true, false, ◌&&◌, ◌⊎◌, Option, none, some,
  List, [], ◌∷◌, ◌++◌, length, ◌==◌, if◌then◌else◌, ret, Bool-cases, Option-cases, inl, inr,
}
use mathlib.Core.Path.{subst}
use dust_dds.Base.Returns.{Returns, Returns-bind}
use dust_dds.Transport.Types.{SequenceNumber}
use dust_dds.Dds.Errors.{DdsResult, ok, err}
use dust_dds.Dds.Handles.{InstanceHandle, HashMap, get, insert, get-insert_self}
use dust_dds.Dds.Time.{DurationKind}
use dust_dds.Dds.Qos.{HistoryQosPolicyKind, keep_last, keep_all}
use dust_dds.Dds.DataReader.Adding.Limits.{IsDepth, FitsDepth}
use dust_dds.Dds.DataWriter.{HistoryCall, remove_change, DataWriterEntity}
use dust_dds.Dds.DataWriter.Writing.{
  Waiting, wait_loop, wait_for, is_too_long, pop_oldest, evict_from, evict, total_samples,
  too_many_of_instance, samples_of, call_history, is_reliable,
}
use dust_dds.Dds.DataWriter.Writing.Limits.{
  FitsQueue, AllFit, IsPositive, AllFit-insert, AllFit-get, total_samples-insert, room_in_queue,
  room_in_depth, fits_one, FitsQueue-le, samples_of-some, samples_of-none, length-insert-insert,
}

-- Some round within the fuel sees the change acknowledged or the time over.
abbrev pub Decides : Waiting → DurationKind → SequenceNumber → ℕ → ℕ → Type 0
Decides waiting max_blocking_time sn zero i = ⊥
Decides waiting max_blocking_time sn (suc fuel) i =
    (waiting.is_change_acknowledged i sn ≡ true)
    ⊎ (is_too_long max_blocking_time (waiting.elapsed i) ≡ true)
    ⊎ Decides waiting max_blocking_time sn fuel (suc i)

wait_loop-returns :
    (waiting : Waiting) (t : DurationKind) (sn : SequenceNumber) (fuel i : ℕ)
    → Decides waiting t sn fuel i
    → Returns (λ x. Unit {0}) (wait_loop waiting t sn fuel i)
unfolding wait_loop
wait_loop-returns waiting t sn zero i d = absurd d
wait_loop-returns waiting t sn (suc fuel) i d =
    elim (Bool-cases (waiting.is_change_acknowledged i sn)) [
      | inl yes_acked ↦ rw yes_acked tt
      | inr not_acked ↦ elim (Bool-cases (is_too_long t (waiting.elapsed i))) [
        | inl over ↦ rw (not_acked, over) tt
        | inr not_over ↦
            rw (not_acked, not_over)
              (wait_loop-returns waiting t sn fuel (suc i) (later d not_acked not_over))
      ]
    ]
  where
    later :
        (waiting.is_change_acknowledged i sn ≡ true)
          ⊎ (is_too_long t (waiting.elapsed i) ≡ true)
          ⊎ Decides waiting t sn fuel (suc i)
        → waiting.is_change_acknowledged i sn ≡ false
        → is_too_long t (waiting.elapsed i) ≡ false
        → Decides waiting t sn fuel (suc i)
    later (inl a) n o = absurd (cc (a, n))
    later (inr (inl a)) n o = absurd (cc (a, o))
    later (inr (inr d)) n o = d

-- The writer with other samples of its instances and more calls of its history cache.
abbrev pub with_samples :
    DataWriterEntity → HashMap (List SequenceNumber) → List HistoryCall → DataWriterEntity
with_samples w m calls = record w {
  transport_writer = record w.transport_writer {
    history_cache = w.transport_writer.history_cache ++ calls;
  };
  instance_samples = m;
}

-- The queue of the instance has room for a sample, and nothing else grew.
pub record HasRoom (w : DataWriterEntity) (h : InstanceHandle) (m : HashMap (List SequenceNumber))
    : Type 0 where
  pub queues : AllFit w.qos m
  pub fewer : total_samples m ≤ total_samples w.instance_samples
  pub room : FitsQueue w.qos (suc (length (samples_of h m)))
  pub as_many :
      (s : List SequenceNumber) → length (insert h s m) ≡ length (insert h s w.instance_samples)

-- At most one change goes, and with an error nothing changes.
unfoldable pub Evicted :
    DataWriterEntity → InstanceHandle → DataWriterEntity × DdsResult (Unit {0}) → Type 0
Evicted w h (w', err e) = w' ≡ w
Evicted w h (w', ok _) =
    (m : HashMap (List SequenceNumber)) × (calls : List HistoryCall) × (length calls ≤ 1)
    × (w' ≡ with_samples w m calls)
    × HasRoom w h m

append-nil {ℓ} : {A : Type ℓ} (xs : List A) → xs ++ [] ≡ xs
append-nil [] = refl
append-nil (x ∷ xs) = ap (◌∷◌ x) (append-nil xs)

full_is_positive : (depth n : ℕ) → (n == depth) ≡ true → IsDepth (keep_last depth) → 1 ≤ n
full_is_positive depth n full deep = ground arith

-- Nothing needs to go.
unchanged :
    (w : DataWriterEntity) (h : InstanceHandle)
    → AllFit w.qos w.instance_samples
    → FitsQueue w.qos (suc (length (samples_of h w.instance_samples)))
    → Evicted w h (w, ok tt)
unfolding Evicted
unchanged w h all room = (
  w.instance_samples,
  [],
  omega arith,
  (λ i. record w {
    transport_writer = record w.transport_writer {
      history_cache = sym (append-nil w.transport_writer.history_cache) i;
    };
  }),
  record { queues = all; fewer = omega arith; room = room; as_many = λ s. refl },
)

unfoldable pub Waits : DataWriterEntity → Waiting → ℕ → Type 0
Waits w waiting fuel =
    (sn : SequenceNumber) → Decides waiting w.qos.reliability.max_blocking_time sn fuel 0

wait_for-returns :
    (w : DataWriterEntity) (waiting : Waiting) (fuel : ℕ) (sn : SequenceNumber)
    → Waits w waiting fuel
    → Returns (λ x. Unit {0}) (wait_for w waiting fuel sn)
unfolding wait_for Waits
wait_for-returns w waiting fuel sn waits =
    by_test (is_reliable w.qos.reliability.kind && w.transport_writer.is_stateful)
  where
    by_test :
        (b : Bool)
        → Returns
            (λ x. Unit {0})
            (if b
              then wait_loop waiting w.qos.reliability.max_blocking_time sn fuel 0
              else ret (ok tt))
    by_test true =
        wait_loop-returns waiting w.qos.reliability.max_blocking_time sn fuel 0 (waits sn)
    by_test false = tt

-- The front of the queue goes.
popped :
    (w : DataWriterEntity) (h : InstanceHandle) (smallest : SequenceNumber)
    (s : List SequenceNumber)
    → get h w.instance_samples ≡ some (smallest ∷ s)
    → AllFit w.qos w.instance_samples
    → HasRoom w h (insert h s w.instance_samples)
popped w h smallest s there all =
    let fits = AllFit-get w.qos h (smallest ∷ s) w.instance_samples all there in
    let after =
      samples_of-some h s (insert h s w.instance_samples)
        (get-insert_self h s w.instance_samples) in
    let before = samples_of-some h (smallest ∷ s) w.instance_samples there in
    record {
      queues =
          AllFit-insert w.qos h s w.instance_samples
            (FitsQueue-le w.qos (suc (length s)) (length s) (omega arith) fits) all;
      fewer = omega (arith, total_samples-insert h s w.instance_samples, ap (λ t. length t) before);
      room = subst (λ t. FitsQueue w.qos (suc (length t))) (sym after) fits;
      as_many = λ t. length-insert-insert h t s w.instance_samples;
    }

pop_oldest-Evicted :
    (w : DataWriterEntity) (waiting : Waiting) (fuel : ℕ) (h : InstanceHandle)
    (s : List SequenceNumber)
    → Waits w waiting fuel
    → 1 ≤ length s
    → get h w.instance_samples ≡ some s
    → AllFit w.qos w.instance_samples
    → Returns (Evicted w h) (pop_oldest w waiting fuel h s)
unfolding pop_oldest Evicted
pop_oldest-Evicted w waiting fuel h [] waits some_left there all = absurd (omega arith)
pop_oldest-Evicted w waiting fuel h (smallest ∷ s) waits some_left there all =
    Returns-bind (λ x. Unit {0}) (Evicted w h) (wait_for w waiting fuel smallest) _
      (wait_for-returns w waiting fuel smallest waits) (λ o _. decided o)
  where
    decided :
        (o : DdsResult (Unit {0}))
        → Returns (Evicted w h) (elim o [
          | err e ↦ ret (w, err e)
          | ok _ ↦ ret (
            call_history
                (remove_change smallest)
                (record w { instance_samples = insert h s w.instance_samples }),
            ok tt,
          )
        ])
    decided (err e) = refl
    decided (ok _) = (
      insert h s w.instance_samples,
      remove_change smallest ∷ [],
      omega arith,
      refl,
      popped w h smallest s there all,
    )

evict_from-Evicted :
    (w : DataWriterEntity) (waiting : Waiting) (fuel : ℕ) (h : InstanceHandle) (depth : ℕ)
    (o : Option (List SequenceNumber))
    → w.qos.history ≡ keep_last depth
    → IsDepth w.qos.history
    → IsPositive w.qos.resource_limits.max_samples_per_instance
    → Waits w waiting fuel
    → get h w.instance_samples ≡ o
    → too_many_of_instance w.qos.resource_limits.max_samples_per_instance w.qos.history o ≡ false
    → AllFit w.qos w.instance_samples
    → Returns (Evicted w h) (evict_from w waiting fuel h depth o)
unfolding evict_from
evict_from-Evicted w waiting fuel h depth none kind deep positive waits there free all =
    unchanged w h all (
      subst (λ t. FitsQueue w.qos (suc (length t)))
        (sym (samples_of-none h w.instance_samples there)) (fits_one w.qos deep positive))
evict_from-Evicted w waiting fuel h depth (some s) kind deep positive waits there free all =
    let fits = AllFit-get w.qos h s w.instance_samples all there in
    elim (Bool-cases (length s == depth)) [
      | inl full ↦ rw full (
          pop_oldest-Evicted w waiting fuel h s waits
            (full_is_positive depth (length s) full (subst IsDepth kind deep)) there all)
      | inr not_full ↦
          let deeper : FitsDepth w.qos.history (suc (length s)) =
            subst (λ k. FitsDepth k (suc (length s))) (sym kind)
              (room_in_depth depth (length s) not_full
                (subst (λ k. FitsDepth k (length s)) kind fits.0)) in
          rw not_full (
            unchanged w h all (
              subst (λ t. FitsQueue w.qos (suc (length t)))
                (sym (samples_of-some h s w.instance_samples there))
                (deeper, room_in_queue w.qos.history _ s free deeper)))
    ]

pub evict-Evicted :
    (w : DataWriterEntity) (waiting : Waiting) (fuel : ℕ) (h : InstanceHandle)
    (k : HistoryQosPolicyKind)
    → w.qos.history ≡ k
    → IsDepth w.qos.history
    → IsPositive w.qos.resource_limits.max_samples_per_instance
    → Waits w waiting fuel
    → too_many_of_instance w.qos.resource_limits.max_samples_per_instance w.qos.history
        (get h w.instance_samples)
      ≡ false
    → AllFit w.qos w.instance_samples
    → Returns (Evicted w h) (evict k w waiting fuel h)
unfolding evict
evict-Evicted w waiting fuel h (keep_last depth) kind deep positive waits free all =
    evict_from-Evicted w waiting fuel h depth _ kind deep positive waits refl free all
evict-Evicted w waiting fuel h keep_all kind deep positive waits free all =
    elim (Option-cases (get h w.instance_samples)) [
      | inl gone ↦ unchanged w h all (
          subst (λ t. FitsQueue w.qos (suc (length t)))
            (sym (samples_of-none h w.instance_samples gone)) (fits_one w.qos deep positive))
      | inr (s, there) ↦
          let deeper : FitsDepth w.qos.history (suc (length s)) =
            subst (λ k. FitsDepth k (suc (length s))) (sym kind) tt in
          unchanged w h all (
            subst (λ t. FitsQueue w.qos (suc (length t)))
              (sym (samples_of-some h s w.instance_samples there))
              (deeper, room_in_queue w.qos.history _ s (rw there at free) deeper))
    ]
