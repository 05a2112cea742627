-- ===== src/Rtps/StatefulWriter.antt =====
-- dds/src/rtps/stateful_writer.rs: a writer with its matched readers. A message that is sent is
-- returned, in order. A panic (`todo!()` and a division by zero) is an outcome.
pub mod Sending
pub mod Reliable
pub mod Answering
pub mod Requested
pub mod Unsent
pub mod Acknacks
pub mod BestEffort
pub mod Fragmentation
use dust_dds.Base.{
  ℕ, ◌+◌, ◌-◌, ◌*◌, ◌/◌, ◌%◌, ◌^◌, Bool, true, false, not, ◌&&◌, Option, none, some, List, [], ◌∷◌,
  ◌++◌, ◌==◌, ltb, if◌then◌else◌, any, find, retain, minimum, maximum, unwrap_or, i32_lt, Outcome,
  ret, panic, stuck, ◌>>=◌,
}
use dust_dds.Transport.Types.{
  EntityId, Guid, GuidPrefix, SequenceNumber, ReliabilityKind, best_effort, reliable,
  DurabilityKind, volatile, transient_local, transient, persistent, guid_eq, entity_id_eq,
}
use dust_dds.Transport.History.{CacheChange, ReaderProxy}
use dust_dds.Rtps.SequenceNumberSet.{elements}
use dust_dds.Rtps.Messages.Submessages.{AckNackSubmessage, NackFragSubmessage, Message}
use dust_dds.Rtps.ReaderProxy
use dust_dds.Rtps.ReaderProxy.{
  RtpsReaderProxy, sequence_numbers, unacked_changes, acked_changes_set, requested_changes_set,
  set_last_received_acknack_count, set_last_received_nack_frag_count,
}
use Sending.{send_message_to_reader_proxy_best_effort}
use dust_dds.Rtps.BehaviorTypes.{Duration, from_millis, to_nanos}
use Reliable.{Sender, send_message_to_reader_proxy_reliable}

pub record RtpsStatefulWriter : Type 0 where
  pub guid : Guid
  pub changes : List CacheChange
  pub matched_readers : List RtpsReaderProxy
  pub heartbeat_period : Duration
  pub data_max_size_serialized : ℕ

unfoldable pub new : Guid → ℕ → RtpsStatefulWriter
new guid data_max_size_serialized = record {
  guid = guid;
  changes = [];
  matched_readers = [];
  heartbeat_period = from_millis 200;
  data_max_size_serialized = data_max_size_serialized;
}

unfoldable pub remove_change : RtpsStatefulWriter → SequenceNumber → RtpsStatefulWriter
remove_change w sequence_number = record w {
  changes = retain (λ cc. not (cc.sequence_number == sequence_number)) w.changes;
}

abbrev pub is_reliable : RtpsReaderProxy → Bool
is_reliable p = elim p.reliability [ reliable ↦ true | best_effort ↦ false ]

unfoldable pub is_change_acknowledged : RtpsStatefulWriter → SequenceNumber → Bool
unfolding unacked_changes
is_change_acknowledged w sequence_number =
    not
      (any (λ rp. unacked_changes rp (some sequence_number)) (retain is_reliable w.matched_readers))

unfoldable pub first_relevant : DurabilityKind → List CacheChange → SequenceNumber
first_relevant volatile changes = unwrap_or (maximum (sequence_numbers changes)) 0
first_relevant transient_local changes = 0
first_relevant transient changes = 0
first_relevant persistent changes = 0

unfoldable pub add_matched_reader : RtpsStatefulWriter → ReaderProxy → ℕ → RtpsStatefulWriter
unfolding ReaderProxy.new first_relevant
add_matched_reader w reader_proxy now =
    if any (λ rp. guid_eq rp.remote_reader_guid reader_proxy.remote_reader_guid) w.matched_readers
    then w
    else record w {
      matched_readers =
          w.matched_readers
          ++ ReaderProxy.new reader_proxy.remote_reader_guid reader_proxy.remote_group_entity_id
              reader_proxy.unicast_locator_list reader_proxy.multicast_locator_list
              reader_proxy.expects_inline_qos true reader_proxy.reliability_kind
              (first_relevant reader_proxy.durability_kind w.changes) now
            ∷ [];
    }

unfoldable pub delete_matched_reader : RtpsStatefulWriter → Guid → RtpsStatefulWriter
delete_matched_reader w reader_guid = record w {
  matched_readers =
      retain (λ rp. not (guid_eq rp.remote_reader_guid reader_guid)) w.matched_readers;
}

-- The arguments of one call of the reliable half.
unfoldable pub sender_of : RtpsStatefulWriter → ℕ → Sender
unfolding to_nanos
sender_of w now = record {
  writer_id = w.guid.entity_id;
  changes = w.changes;
  seq_num_min = minimum (sequence_numbers w.changes);
  seq_num_max = maximum (sequence_numbers w.changes);
  data_max_size_serialized = w.data_max_size_serialized;
  heartbeat_period = to_nanos w.heartbeat_period;
  now = now;
}

unfoldable pub send_to :
    ReliabilityKind
    → RtpsStatefulWriter
    → ℕ
    → RtpsReaderProxy
    → Outcome (RtpsReaderProxy × List Message)
unfolding sender_of
send_to best_effort w now p =
    send_message_to_reader_proxy_best_effort p w.guid.entity_id w.changes w.data_max_size_serialized
send_to reliable w now p = send_message_to_reader_proxy_reliable (sender_of w now) p

unfoldable pub send_to_all :
    RtpsStatefulWriter → ℕ → List RtpsReaderProxy → Outcome (List RtpsReaderProxy × List Message)
unfolding send_to
send_to_all w now [] = ret ([], [])
send_to_all w now (p ∷ ps) = do
  (p', sent) ← send_to p.reliability w now p
  (ps', later) ← send_to_all w now ps
  ret (p' ∷ ps', sent ++ later)

unfoldable pub send_message : RtpsStatefulWriter → ℕ → Outcome (RtpsStatefulWriter × List Message)
unfolding send_to_all
send_message w now = do
  (readers, sent) ← send_to_all w now w.matched_readers
  ret (record w { matched_readers = readers }, sent)

unfoldable pub add_change :
    RtpsStatefulWriter → CacheChange → ℕ → Outcome (RtpsStatefulWriter × List Message)
unfolding send_message
add_change w cache_change now =
    send_message (record w { changes = w.changes ++ cache_change ∷ [] }) now

unfoldable pub reader_lookup : Guid → List RtpsReaderProxy → Option RtpsReaderProxy
reader_lookup g readers = find (λ x. guid_eq x.remote_reader_guid g) readers

unfoldable pub put_reader : Guid → RtpsReaderProxy → List RtpsReaderProxy → List RtpsReaderProxy
put_reader g p [] = []
put_reader g p (x ∷ xs) = if guid_eq x.remote_reader_guid g then p ∷ xs else x ∷ put_reader g p xs

unfoldable pub with_reader :
    RtpsStatefulWriter
    → Guid
    → RtpsReaderProxy × List Message
    → Outcome (RtpsStatefulWriter × List Message)
unfolding put_reader
with_reader w g x = ret (record w { matched_readers = put_reader g x.0 w.matched_readers }, x.1)

-- `base() - 1` is -1 for the base 0 and acknowledges nothing, as the truncated difference does.
unfoldable pub acknack_update : RtpsReaderProxy → AckNackSubmessage → RtpsReaderProxy
unfolding acked_changes_set requested_changes_set set_last_received_acknack_count
acknack_update p message =
    set_last_received_acknack_count
      (requested_changes_set (acked_changes_set p (message.reader_sn_state.base - 1))
        (elements message.reader_sn_state))
      message.count

unfoldable pub on_acknack_submessage_received :
    RtpsStatefulWriter
    → AckNackSubmessage
    → GuidPrefix
    → ℕ
    → Outcome (RtpsStatefulWriter × List Message)
unfolding reader_lookup with_reader acknack_update sender_of
on_acknack_submessage_received w message source_guid_prefix now =
    let reader_guid : Guid = record {
      prefix = source_guid_prefix;
      entity_id = message.reader_id;
    } in
    if entity_id_eq w.guid.entity_id message.writer_id
    then elim (reader_lookup reader_guid w.matched_readers) [
      | some p ↦
          if is_reliable p && i32_lt p.last_received_acknack_count message.count
          then (send_message_to_reader_proxy_reliable (sender_of w now) (acknack_update p message)
              >>= with_reader w reader_guid)
          else ret (w, [])
      | none ↦ ret (w, [])
    ]
    else ret (w, [])

unfoldable pub on_nack_frag_submessage_received :
    RtpsStatefulWriter
    → NackFragSubmessage
    → GuidPrefix
    → ℕ
    → Outcome (RtpsStatefulWriter × List Message)
unfolding reader_lookup with_reader requested_changes_set set_last_received_nack_frag_count
    sender_of
on_nack_frag_submessage_received w message source_guid_prefix now =
    let reader_guid : Guid = record {
      prefix = source_guid_prefix;
      entity_id = message.reader_id;
    } in
    elim (reader_lookup reader_guid w.matched_readers) [
      | some p ↦
          if is_reliable p && i32_lt p.last_received_nack_frag_count message.count
          then (send_message_to_reader_proxy_reliable (sender_of w now) (
                set_last_received_nack_frag_count (requested_changes_set p (message.writer_sn ∷ []))
                  message.count)
              >>= with_reader w reader_guid)
          else ret (w, [])
      | none ↦ ret (w, [])
    ]
