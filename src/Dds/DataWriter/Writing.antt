-- ===== src/Dds/DataWriter/Writing.antt =====
-- `write_w_timestamp`, `dispose_w_timestamp` and `unregister_w_timestamp` of data_writer.rs.
pub mod Limits
pub mod Evicting
pub mod Results
use dust_dds.Base.{
  ℕ, zero, suc, ◌+◌, ◌-◌, ◌*◌, ◌^◌, Bool, true, false, not, ◌&&◌, ◌||◌, Option, none, some, List,
  [], ◌∷◌, ◌++◌, any, length, ltb, leb, ◌==◌, if◌then◌else◌, unwrap_or, Outcome, ret, panic, stuck,
  ◌>>=◌,
}
use dust_dds.Transport.Types.{ChangeKind, alive, not_alive_disposed, SequenceNumber}
use dust_dds.Transport.History.{CacheChange}
use dust_dds.Dds.Errors.{
  DdsResult, ok, err, not_enabled, out_of_resources, timeout, illegal_operation, bad_parameter,
}
use dust_dds.Dds.Handles.{InstanceHandle, HashMap, handle_eq, get, contains_key, insert, remove}
use dust_dds.Dds.Time.{Time, Duration, DurationKind, finite, infinite, to_transport}
use dust_dds.Dds.Qos.{
  Length, unlimited, limited, HistoryQosPolicyKind, keep_last, keep_all, ReliabilityQosPolicyKind,
  best_effort, reliable, usize_lt_length,
}
use dust_dds.Dds.DataWriter.{
  HistoryCall, add_change, remove_change, TransportWriter, DataWriterEntity,
}

-- What the wait for an acknowledgement sees at its `i`-th round: the transport's answer, and the
-- nanoseconds since the start.
pub record Waiting : Type 0 where
  pub is_change_acknowledged : ℕ → SequenceNumber → Bool
  pub elapsed : ℕ → ℕ

-- `std::time::Duration::from`: `sec as u64` extends the sign.
abbrev pub nanos : Duration → ℕ
nanos t =
    (if ltb t.sec (2 ^ 31) then t.sec else t.sec + (2 ^ 64 - 2 ^ 32)) * 1_000_000_000 + t.nanosec

abbrev pub is_too_long : DurationKind → ℕ → Bool
is_too_long (finite t) elapsed = ltb (nanos t) elapsed
is_too_long infinite elapsed = false

-- The `while let` loop, on fuel.
unfoldable pub wait_loop :
    Waiting → DurationKind → SequenceNumber → ℕ → ℕ → Outcome (DdsResult (Unit {0}))
wait_loop waiting max_blocking_time sn zero i = stuck
wait_loop waiting max_blocking_time sn (suc fuel) i =
    let rest = wait_loop waiting max_blocking_time sn fuel (suc i) in
    if waiting.is_change_acknowledged i sn
    then ret (ok tt)
    else if is_too_long max_blocking_time (waiting.elapsed i)
    then ret (err timeout)
    else rest

abbrev pub is_reliable : ReliabilityQosPolicyKind → Bool
is_reliable reliable = true
is_reliable best_effort = false

unfoldable pub wait_for :
    DataWriterEntity → Waiting → ℕ → SequenceNumber → Outcome (DdsResult (Unit {0}))
unfolding wait_loop
wait_for w waiting fuel sn =
    if is_reliable w.qos.reliability.kind && w.transport_writer.is_stateful
    then wait_loop waiting w.qos.reliability.max_blocking_time sn fuel 0
    else ret (ok tt)

abbrev pub call_history : HistoryCall → DataWriterEntity → DataWriterEntity
call_history call w = record w {
  transport_writer = record w.transport_writer {
    history_cache = w.transport_writer.history_cache ++ call ∷ [];
  };
}

-- The front of a full queue goes, once it is acknowledged where that is asked for.
unfoldable pub pop_oldest :
    DataWriterEntity
    → Waiting
    → ℕ
    → InstanceHandle
    → List SequenceNumber
    → Outcome (DataWriterEntity × DdsResult (Unit {0}))
unfolding wait_for insert
pop_oldest w waiting fuel handle [] = ret (w, ok tt)
pop_oldest w waiting fuel handle (smallest ∷ s) = do
  waited ← wait_for w waiting fuel smallest
  elim waited [
    | err e ↦ ret (w, err e)
    | ok _ ↦ ret (
      call_history (remove_change smallest)
          (record w { instance_samples = insert handle s w.instance_samples }),
      ok tt,
    )
  ]

unfoldable pub evict_from :
    DataWriterEntity
    → Waiting
    → ℕ
    → InstanceHandle
    → ℕ
    → Option (List SequenceNumber)
    → Outcome (DataWriterEntity × DdsResult (Unit {0}))
unfolding pop_oldest
evict_from w waiting fuel handle depth none = ret (w, ok tt)
evict_from w waiting fuel handle depth (some s) =
    if length s == depth then pop_oldest w waiting fuel handle s else ret (w, ok tt)

unfoldable pub evict :
    HistoryQosPolicyKind
    → DataWriterEntity
    → Waiting
    → ℕ
    → InstanceHandle
    → Outcome (DataWriterEntity × DdsResult (Unit {0}))
unfolding evict_from get
evict keep_all w waiting fuel handle = ret (w, ok tt)
evict (keep_last depth) w waiting fuel handle =
    evict_from w waiting fuel handle depth (get handle w.instance_samples)

-- The three tests of the resource limits.
unfoldable pub too_many_instances : Length → InstanceHandle → HashMap (List SequenceNumber) → Bool
unfolding contains_key
too_many_instances unlimited handle m = false
too_many_instances (limited max_instances) handle m =
    not (contains_key handle m) && length m == max_instances

abbrev pub history_is_below : HistoryQosPolicyKind → ℕ → Bool
history_is_below (keep_last depth) limit = leb depth limit
history_is_below keep_all limit = false

unfoldable pub too_many_of_instance :
    Length → HistoryQosPolicyKind → Option (List SequenceNumber) → Bool
too_many_of_instance unlimited history o = false
too_many_of_instance (limited limit) history none = false
too_many_of_instance (limited limit) history (some s) =
    not (history_is_below history limit) && leb limit (length s)

unfoldable pub total_samples : HashMap (List SequenceNumber) → ℕ
total_samples [] = 0
total_samples ((k, s) ∷ m) = length s + total_samples m

unfoldable pub too_many_samples : Length → ℕ → Bool
too_many_samples unlimited total = false
too_many_samples (limited max_samples) total = leb max_samples total

unfoldable pub is_out_of_resources : DataWriterEntity → InstanceHandle → Bool
unfolding too_many_instances too_many_of_instance too_many_samples total_samples get
is_out_of_resources w handle =
    too_many_instances w.qos.resource_limits.max_instances handle w.instance_samples
    || too_many_of_instance w.qos.resource_limits.max_samples_per_instance w.qos.history
        (get handle w.instance_samples)
    || too_many_samples w.qos.resource_limits.max_samples (total_samples w.instance_samples)

abbrev pub change_of : DataWriterEntity → ChangeKind → InstanceHandle → Time → List ℕ → CacheChange
change_of w kind handle timestamp octets = record {
  kind = kind;
  writer_guid = w.transport_writer.guid;
  sequence_number = w.last_change_sequence_number;
  source_timestamp = some (to_transport timestamp);
  instance_handle = some handle;
  data_value = octets;
}

unfoldable pub abort_task : InstanceHandle → Option ℕ → DataWriterEntity → DataWriterEntity
unfolding remove
abort_task handle none w = w
abort_task handle (some t) w = record w {
  instance_deadline_missed_task = remove handle w.instance_deadline_missed_task;
  aborted_tasks = w.aborted_tasks ++ t ∷ [];
}

abbrev pub samples_of : InstanceHandle → HashMap (List SequenceNumber) → List SequenceNumber
samples_of handle m = elim (get handle m) [ none ↦ [] | some s ↦ s ]

-- The end of `write_w_timestamp`; its second removal of the task finds none.
unfoldable pub push_sample : DataWriterEntity → InstanceHandle → CacheChange → DataWriterEntity
unfolding abort_task insert get
push_sample w handle change =
    let w' = abort_task handle (get handle w.instance_deadline_missed_task) w in
    call_history (add_change change) (record w' {
      max_seq_num =
          if ltb (unwrap_or w.max_seq_num 0) change.sequence_number
          then some change.sequence_number
          else w.max_seq_num;
      instance_samples =
          insert handle (samples_of handle w.instance_samples ++ change.sequence_number ∷ [])
            w.instance_samples;
    })

unfoldable pub finish_write :
    InstanceHandle
    → CacheChange
    → DataWriterEntity × DdsResult (Unit {0})
    → Outcome (DataWriterEntity × DdsResult SequenceNumber)
unfolding push_sample
finish_write handle change (w, err e) = ret (w, err e)
finish_write handle change (w, ok _) =
    ret (push_sample w handle change, ok w.last_change_sequence_number)

-- From the handle on; the instance is registered where there is room.
unfoldable pub write_registered :
    DataWriterEntity
    → Waiting
    → ℕ
    → InstanceHandle
    → List ℕ
    → Time
    → Outcome (DataWriterEntity × DdsResult SequenceNumber)
unfolding is_out_of_resources evict finish_write to_transport
write_registered w waiting fuel handle serialized_data timestamp =
    if is_out_of_resources w handle
    then ret (w, err out_of_resources)
    else (evict w.qos.history w waiting fuel handle
        >>= finish_write handle (change_of w alive handle timestamp serialized_data))

abbrev pub is_registered : InstanceHandle → DataWriterEntity → Bool
is_registered handle w = any (λ h. handle_eq h handle) w.registered_instance_list

unfoldable pub write_handle :
    DataWriterEntity
    → Waiting
    → ℕ
    → DdsResult InstanceHandle
    → List ℕ
    → Time
    → Outcome (DataWriterEntity × DdsResult SequenceNumber)
unfolding handle_eq usize_lt_length write_registered
write_handle w waiting fuel (err e) serialized_data timestamp = ret (w, err e)
write_handle w waiting fuel (ok handle) serialized_data timestamp =
    if is_registered handle w
    then write_registered w waiting fuel handle serialized_data timestamp
    else if usize_lt_length (length w.registered_instance_list) w.qos.resource_limits.max_instances
    then write_registered
        (record w { registered_instance_list = w.registered_instance_list ++ handle ∷ [] }) waiting
        fuel handle serialized_data timestamp
    else ret (w, err out_of_resources)

abbrev pub next_number : DataWriterEntity → DataWriterEntity
next_number w = record w { last_change_sequence_number = w.last_change_sequence_number + 1 }

unfoldable pub write_w_timestamp :
    DataWriterEntity
    → Waiting
    → ℕ
    → List ℕ
    → Time
    → Outcome (DataWriterEntity × DdsResult SequenceNumber)
unfolding write_handle
write_w_timestamp w waiting fuel serialized_data timestamp =
    if w.enabled
    then write_handle (next_number w) waiting fuel
        (w.type_support.handle_from_serialized_foo serialized_data) serialized_data timestamp
    else ret (w, err not_enabled)

-- The loop over the members.
unfoldable pub has_key : List (DdsResult Bool) → DdsResult Bool
has_key [] = ok false
has_key (err e ∷ ms) = err e
has_key (ok true ∷ ms) = ok true
has_key (ok false ∷ ms) = has_key ms

-- A change of the key alone, of a registered instance.
unfoldable pub send_key :
    ChangeKind
    → DataWriterEntity
    → DdsResult InstanceHandle
    → List ℕ
    → Time
    → DataWriterEntity × DdsResult (Unit {0})
unfolding handle_eq abort_task get to_transport
send_key kind w (err e) serialized_key timestamp = (w, err e)
send_key kind w (ok handle) serialized_key timestamp =
    if is_registered handle w
    then (let w' = next_number (abort_task handle (get handle w.instance_deadline_missed_task) w) in
        (call_history (add_change (change_of w' kind handle timestamp serialized_key)) w', ok tt))
    else (w, err bad_parameter)

unfoldable pub send_keyed :
    ChangeKind → DataWriterEntity → List ℕ → Time → DataWriterEntity × DdsResult (Unit {0})
unfolding has_key send_key
send_keyed kind w serialized_key timestamp =
    if w.enabled
    then elim (has_key w.type_support.members_is_key) [
      | err e ↦ (w, err e)
      | ok keyed ↦
          if keyed
          then send_key kind w (w.type_support.handle_from_serialized_key serialized_key)
              serialized_key timestamp
          else (w, err illegal_operation)
    ]
    else (w, err not_enabled)

-- Both send the kind NotAliveDisposed.
unfoldable pub dispose_w_timestamp :
    DataWriterEntity → List ℕ → Time → DataWriterEntity × DdsResult (Unit {0})
unfolding send_keyed
dispose_w_timestamp w serialized_key timestamp =
    send_keyed not_alive_disposed w serialized_key timestamp

unfoldable pub unregister_w_timestamp :
    DataWriterEntity → List ℕ → Time → DataWriterEntity × DdsResult (Unit {0})
unfolding send_keyed
unregister_w_timestamp w serialized_key timestamp =
    send_keyed not_alive_disposed w serialized_key timestamp
