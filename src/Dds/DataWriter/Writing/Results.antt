-- ===== src/Dds/DataWriter/Writing/Results.antt =====
-- What `write_w_timestamp` does to the writer, on every branch.
use dust_dds.Base.{
  ℕ, suc, ◌≤◌, ◌≡◌, refl, sym, ap, arith, Bool, true, false, ◌||◌, Option, none, some, List, [],
  ◌∷◌, ◌++◌, length, if◌then◌else◌, ret, Bool-cases, inl, inr,
}
use mathlib.Core.Path.{subst}
use dust_dds.Base.Returns.{Returns, Returns-bind}
use dust_dds.Transport.Types.{SequenceNumber, alive}
use dust_dds.Dds.Errors.{DdsResult, ok, err, not_enabled}
use dust_dds.Dds.Handles.{InstanceHandle, HashMap, get, insert, get-insert_self}
use dust_dds.Dds.Time.{Time, to_transport}
use dust_dds.Dds.Qos.{Length, unlimited, limited, usize_lt_length}
use dust_dds.Dds.DataReader.Adding.Limits.{IsDepth}
use dust_dds.Dds.DataReader.Adding.Bounds.{FitsLength, FitsLength-le}
use dust_dds.Dds.DataWriter.{HistoryCall, add_change, DataWriterEntity}
use dust_dds.Dds.DataWriter.Writing.{
  too_many_instances, change_of, Waiting, evict, is_out_of_resources, total_samples,
  too_many_samples, samples_of, abort_task, push_sample, finish_write, write_registered,
  write_handle, write_w_timestamp, next_number, is_registered,
}
use dust_dds.Dds.DataWriter.Writing.Limits.{
  room_for_instance, FitsQueue, IsBounded, IsPositive, AllFit-insert, total_samples-insert,
}
use dust_dds.Dds.DataWriter.Writing.Evicting.{Waits, HasRoom, Evicted, with_samples, evict-Evicted}

-- The result of a write of `octets` by a writer, whose last number is already that of the write:
-- the change that the history cache was given, and its number at the end of the instance's queue.
unfoldable pub Result :
    DataWriterEntity → List ℕ → Time → DataWriterEntity × DdsResult SequenceNumber → Type 0
unfolding to_transport
Result w octets t (w', err e) =
    (w'.instance_samples ≡ w.instance_samples) × (w'.transport_writer ≡ w.transport_writer)
Result w octets t (w', ok n) =
    (n ≡ w.last_change_sequence_number)
    × (w'.last_change_sequence_number ≡ n)
    × (h : InstanceHandle) × (w.type_support.handle_from_serialized_foo octets ≡ ok h)
    × (older : List SequenceNumber) × (get h w'.instance_samples ≡ some (older ++ n ∷ []))
    × (calls : List HistoryCall) × (length calls ≤ 1)
    × (w'.transport_writer.history_cache
        ≡ (w.transport_writer.history_cache ++ calls)
          ++ add_change (record {
            kind = alive;
            writer_guid = w.transport_writer.guid;
            sequence_number = n;
            source_timestamp = some (to_transport t);
            instance_handle = some h;
            data_value = octets;
          })
            ∷ [])

-- In any case the samples are within the limits of the QoS.
abbrev pub Wrote :
    DataWriterEntity → List ℕ → Time → DataWriterEntity × DdsResult SequenceNumber → Type 0
Wrote w octets t x = IsBounded w.qos x.0.instance_samples × Result w octets t x

room_in_total : (l : Length) (n : ℕ) → too_many_samples l n ≡ false → FitsLength l (suc n)
unfolding too_many_samples
room_in_total unlimited n free = tt
room_in_total (limited a) n free = ground arith

length-append_one {ℓ} : {A : Type ℓ} (xs : List A) (x : A) → length (xs ++ x ∷ []) ≡ suc (length xs)
length-append_one [] x = refl
length-append_one (y ∷ ys) x = ap (λ (n : ℕ). suc n) (length-append_one ys x)

pushed :
    (w : DataWriterEntity) (h : InstanceHandle) (sn : SequenceNumber)
    (m : HashMap (List SequenceNumber))
    → HasRoom w h m
    → too_many_samples w.qos.resource_limits.max_samples (total_samples w.instance_samples) ≡ false
    → too_many_instances w.qos.resource_limits.max_instances h w.instance_samples ≡ false
    → FitsLength w.qos.resource_limits.max_instances (length w.instance_samples)
    → IsBounded w.qos (insert h (samples_of h m ++ sn ∷ []) m)
pushed w h sn m room free new fits =
    let longer = length-append_one (samples_of h m) sn in
    record {
      queues =
          AllFit-insert w.qos h (samples_of h m ++ sn ∷ []) m
            (subst (FitsQueue w.qos) (sym longer) room.room) room.queues;
      samples =
          FitsLength-le _ (suc (total_samples w.instance_samples)) _
            (omega
              (arith, total_samples-insert h (samples_of h m ++ sn ∷ []) m, longer, room.fewer))
            (room_in_total _ _ free);
      instances =
          subst (FitsLength w.qos.resource_limits.max_instances)
            (sym (room.as_many (samples_of h m ++ sn ∷ [])))
            (room_for_instance _ h (samples_of h m ++ sn ∷ []) w.instance_samples new fits);
    }

abort_task_keeps :
    (h : InstanceHandle) (o : Option ℕ) (w : DataWriterEntity)
    → ((abort_task h o w).transport_writer ≡ w.transport_writer)
      × ((abort_task h o w).last_change_sequence_number ≡ w.last_change_sequence_number)
unfolding abort_task
abort_task_keeps h none w = (refl, refl)
abort_task_keeps h (some t) w = (refl, refl)

finish_write-Wrote :
    (w : DataWriterEntity) (h : InstanceHandle) (octets : List ℕ) (t : Time)
    (x : DataWriterEntity × DdsResult (Unit {0}))
    → w.type_support.handle_from_serialized_foo octets ≡ ok h
    → IsBounded w.qos w.instance_samples
    → too_many_instances w.qos.resource_limits.max_instances h w.instance_samples ≡ false
    → too_many_samples w.qos.resource_limits.max_samples (total_samples w.instance_samples) ≡ false
    → Evicted w h x
    → Returns (Wrote w octets t) (finish_write h (change_of w alive h t octets) x)
unfolding finish_write Evicted Result
finish_write-Wrote w h octets t (w', err e) of b new free same =
    subst (λ v. Wrote w octets t (v, err e)) (sym same) (b, (refl, refl))
finish_write-Wrote w h octets t (w', ok _) of b new free (m, calls, few, same, room) =
    subst
      (λ v.
        Wrote w octets t
          (push_sample v h (change_of w alive h t octets), ok v.last_change_sequence_number))
      (sym same)
      (
        pushed w h w.last_change_sequence_number m room free new b.instances,
        (
          refl,
          (abort_task_keeps h _ (with_samples w m calls)).1,
          h,
          of,
          samples_of h m,
          get-insert_self h (samples_of h m ++ w.last_change_sequence_number ∷ []) m,
          calls,
          few,
          ap (λ v. v.history_cache ++ add_change (change_of w alive h t octets) ∷ [])
              (abort_task_keeps h (get h w.instance_deadline_missed_task)
                (with_samples w m calls)).0,
        ),
      )

no_limit_passed : (a b c : Bool) → (a || b || c) ≡ false → (a ≡ false) × (b ≡ false) × (c ≡ false)
no_limit_passed a b c e = ground arith

write_registered-Wrote :
    (w : DataWriterEntity) (waiting : Waiting) (fuel : ℕ) (h : InstanceHandle) (octets : List ℕ)
    (t : Time)
    → IsDepth w.qos.history
    → IsPositive w.qos.resource_limits.max_samples_per_instance
    → Waits w waiting fuel
    → IsBounded w.qos w.instance_samples
    → w.type_support.handle_from_serialized_foo octets ≡ ok h
    → Returns (Wrote w octets t) (write_registered w waiting fuel h octets t)
unfolding write_registered is_out_of_resources Result
write_registered-Wrote w waiting fuel h octets t deep positive waits b of =
    elim (Bool-cases (is_out_of_resources w h)) [
      | inl out ↦ rw out (b, (refl, refl))
      | inr free ↦
          let (new, queue_free, total_free) = no_limit_passed _ _ _ free in
          rw free (
            Returns-bind (Evicted w h) (Wrote w octets t) (evict w.qos.history w waiting fuel h) _
              (evict-Evicted w waiting fuel h w.qos.history refl deep positive waits queue_free
                b.queues)
              (λ x evicted. finish_write-Wrote w h octets t x of b new total_free evicted))
    ]

write_handle-Wrote :
    (w : DataWriterEntity) (waiting : Waiting) (fuel : ℕ) (o : DdsResult InstanceHandle)
    (octets : List ℕ) (t : Time)
    → IsDepth w.qos.history
    → IsPositive w.qos.resource_limits.max_samples_per_instance
    → Waits w waiting fuel
    → IsBounded w.qos w.instance_samples
    → w.type_support.handle_from_serialized_foo octets ≡ o
    → Returns (Wrote w octets t) (write_handle w waiting fuel o octets t)
unfolding write_handle Result Waits
write_handle-Wrote w waiting fuel (err e) octets t deep positive waits b of = (b, (refl, refl))
write_handle-Wrote w waiting fuel (ok h) octets t deep positive waits b of =
    elim (Bool-cases (is_registered h w)) [
      | inl known ↦
          rw known (write_registered-Wrote w waiting fuel h octets t deep positive waits b of)
      | inr fresh ↦
          elim (Bool-cases (
            usize_lt_length (length w.registered_instance_list)
              w.qos.resource_limits.max_instances)) [
                | inl room ↦
                    rw (fresh, room)
                      (write_registered-Wrote
                        (record w {
                          registered_instance_list = w.registered_instance_list ++ h ∷ [];
                        })
                        waiting fuel h octets t deep positive waits b of)
                | inr full ↦ rw (fresh, full) (b, (refl, refl))
              ]
    ]

-- A writer keeps no more samples than its history's depth and the limit for each instance allow, no
-- more in all than max_samples, and no more instances than max_instances; the depth is positive and
-- below 2 ^ 32 and the limit for an instance positive. It is given data to write, and each wait for
-- an acknowledgement ends within the fuel, acknowledged or timed out. Then the code returns, and the
-- samples and the instances are still within these limits. With an error the samples and the history
-- cache are as before. Otherwise the result is the number above the last one, which is now the last
-- one and stands at the end of the queue of the data's instance; and the history cache was given,
-- after at most one other call, an alive change with that number, the data, its instance and the
-- timestamp.
pub write_w_timestamp-Wrote :
    (w : DataWriterEntity) (waiting : Waiting) (fuel : ℕ) (octets : List ℕ) (t : Time)
    → IsDepth w.qos.history
    → IsPositive w.qos.resource_limits.max_samples_per_instance
    → Waits w waiting fuel
    → IsBounded w.qos w.instance_samples
    → Returns (Wrote (next_number w) octets t) (write_w_timestamp w waiting fuel octets t)
unfolding write_w_timestamp Result Waits
write_w_timestamp-Wrote w waiting fuel octets t deep positive waits b = by_test w.enabled
  where
    by_test :
        (on : Bool)
        → Returns (Wrote (next_number w) octets t) (
            if on
            then write_handle
                (next_number w)
                waiting
                fuel
                (w.type_support.handle_from_serialized_foo octets)
                octets
                t
            else ret (w, err not_enabled))
    by_test true =
        write_handle-Wrote (next_number w) waiting fuel
          (w.type_support.handle_from_serialized_foo octets) octets t deep positive waits b refl
    by_test false = (b, (refl, refl))
