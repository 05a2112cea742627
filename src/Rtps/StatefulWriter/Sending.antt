-- ===== src/Rtps/StatefulWriter/Sending.antt =====
-- The messages of one change, and `send_message_to_reader_proxy_best_effort`, of
-- dds/src/rtps/stateful_writer.rs.
use dust_dds.Base.{
  ℕ, zero, suc, ◌+◌, ◌-◌, ◌*◌, ◌/◌, ◌%◌, ◌^◌, Bool, true, false, Option, none, some, List, [], ◌∷◌,
  ◌++◌, ◌==◌, ltb, min, if◌then◌else◌, find, length, range, Outcome, ret, panic, stuck, ◌>>=◌,
}
use dust_dds.Transport.Types.{
  EntityId, SequenceNumber, ChangeKind, alive, not_alive_disposed, not_alive_unregistered,
  entityid_unknown,
}
use dust_dds.Transport.History.{CacheChange}
use dust_dds.Rtps.SequenceNumberSet
use dust_dds.Rtps.Messages.Types.{time_invalid, to_message_time}
use dust_dds.Rtps.Messages.Submessages.{
  Submessage, data_message, data_frag, gap, info_destination, info_timestamp, DataFragSubmessage,
  Message,
}
use dust_dds.Rtps.CacheChange.{as_data_submessage}
use dust_dds.Rtps.ReaderProxy.{RtpsReaderProxy, next_unsent_change, set_highest_sent_seq_num}

-- `len.div_ceil(data_max_size_serialized)`
unfoldable pub number_of_fragments : ℕ → ℕ → Outcome ℕ
number_of_fragments size data_max_size_serialized =
    if data_max_size_serialized == 0
    then panic
    else ret
        (size / data_max_size_serialized + (if size % data_max_size_serialized == 0 then 0 else 1))

abbrev pub info_dst : RtpsReaderProxy → Submessage
info_dst p = info_destination (record { guid_prefix = p.remote_reader_guid.prefix })

unfoldable pub info_timestamp_of : CacheChange → Submessage
info_timestamp_of change = elim change.source_timestamp [
  | some timestamp ↦
      info_timestamp (record { invalidate_flag = false; timestamp = to_message_time timestamp })
  | none ↦ info_timestamp (record { invalidate_flag = true; timestamp = time_invalid })
]

-- The remaining kinds are `todo!()`.
unfoldable pub key_flag_of : ChangeKind → Outcome Bool
key_flag_of alive = ret false
key_flag_of not_alive_disposed = ret true
key_flag_of not_alive_unregistered = ret true
key_flag_of _ = panic

-- The DATA_FRAG with the octets from `frag_index * data_max_size_serialized` on.
unfoldable pub fragment_of :
    RtpsReaderProxy → EntityId → CacheChange → ℕ → Bool → ℕ → DataFragSubmessage
fragment_of p writer_id change data_max_size_serialized key_flag frag_index = record {
  inline_qos_flag = true;
  non_standard_payload_flag = false;
  key_flag = key_flag;
  reader_id = p.remote_reader_guid.entity_id;
  writer_id = writer_id;
  writer_sn = change.sequence_number;
  fragment_starting_num = (frag_index + 1) % 2 ^ 32;
  fragments_in_submessage = 1;
  fragment_size = data_max_size_serialized % 2 ^ 16;
  data_size = length change.data_value % 2 ^ 32;
  inline_qos = [];
  serialized_payload = record {
    data_value = change.data_value;
    start = frag_index * data_max_size_serialized;
    stop = min ((frag_index + 1) * data_max_size_serialized) (length change.data_value);
  };
}

unfoldable pub fragment_messages :
    RtpsReaderProxy → EntityId → CacheChange → ℕ → List ℕ → Outcome (List Message)
unfolding key_flag_of fragment_of
fragment_messages p writer_id change data_max_size_serialized [] = ret []
fragment_messages p writer_id change data_max_size_serialized (i ∷ is) = do
  key_flag ← key_flag_of change.kind
  later ← fragment_messages p writer_id change data_max_size_serialized is
  ret (
      record {
        submessages =
            info_dst p
            ∷ info_timestamp_of change
            ∷ data_frag (fragment_of p writer_id change data_max_size_serialized key_flag i)
            ∷ [];
        destination_locator_list = p.unicast_locator_list;
      }
      ∷ later)

unfoldable pub find_change : List CacheChange → SequenceNumber → Option CacheChange
find_change changes sn = find (λ cc. cc.sequence_number == sn) changes

-- A GAP of one number, or of all from `start` up to `stop`.
abbrev pub gap_of : EntityId → EntityId → SequenceNumber → SequenceNumber → Submessage
gap_of reader_id writer_id start stop = gap (record {
  reader_id = reader_id;
  writer_id = writer_id;
  gap_start = start;
  gap_list = SequenceNumberSet.empty (stop + 1);
})

abbrev pub message_to : RtpsReaderProxy → List Submessage → Message
message_to p submessages = record {
  submessages = submessages;
  destination_locator_list = p.unicast_locator_list;
}

-- Either the DATA_FRAGs or the one DATA of a change.
unfoldable pub change_messages :
    RtpsReaderProxy → EntityId → CacheChange → ℕ → Outcome (List Message)
unfolding number_of_fragments fragment_messages info_timestamp_of
change_messages p writer_id change data_max_size_serialized = do
  n ← number_of_fragments (length change.data_value) data_max_size_serialized
  if ltb 1 n
      then fragment_messages p writer_id change data_max_size_serialized (range 0 n)
      else ret (
          message_to p (
            info_dst p
            ∷ info_timestamp_of change
            ∷ data_message (as_data_submessage change p.remote_reader_guid.entity_id writer_id)
            ∷ [])
          ∷ [])

-- One round of the loop, up to the last `set_highest_sent_seq_num`.
unfoldable pub best_effort_round :
    RtpsReaderProxy
    → EntityId
    → List CacheChange
    → ℕ
    → SequenceNumber
    → Outcome (RtpsReaderProxy × List Message)
unfolding find_change change_messages
best_effort_round p writer_id changes data_max_size_serialized next_sn =
    if ltb (p.highest_sent_seq_num + 1) next_sn
    then ret (
      set_highest_sent_seq_num p next_sn,
      message_to p (
            gap_of p.remote_reader_guid.entity_id writer_id (p.highest_sent_seq_num + 1)
              (next_sn - 1)
            ∷ [])
          ∷ [],
    )
    else elim (find_change changes next_sn) [
      | some change ↦ (do
        sent ← change_messages p writer_id change data_max_size_serialized
        ret (p, sent))
      | none ↦ ret (p, message_to p (gap_of entityid_unknown writer_id next_sn next_sn ∷ []) ∷ [])
    ]

-- The `while let` loop on fuel.
unfoldable pub best_effort_loop :
    ℕ → RtpsReaderProxy → EntityId → List CacheChange → ℕ → Outcome (RtpsReaderProxy × List Message)
unfolding best_effort_round
best_effort_loop zero p writer_id changes data_max_size_serialized = stuck
best_effort_loop (suc fuel) p writer_id changes data_max_size_serialized =
    elim (next_unsent_change p changes) [
      | none ↦ ret (p, [])
      | some next_sn ↦ (do
        (p', sent) ← best_effort_round p writer_id changes data_max_size_serialized next_sn
        (p'', later) ←
            best_effort_loop fuel (set_highest_sent_seq_num p' next_sn) writer_id changes
              data_max_size_serialized
        ret (p'', sent ++ later))
    ]

-- Each round sends a change, so one round more than there are changes is enough.
unfoldable pub send_message_to_reader_proxy_best_effort :
    RtpsReaderProxy → EntityId → List CacheChange → ℕ → Outcome (RtpsReaderProxy × List Message)
unfolding best_effort_loop
send_message_to_reader_proxy_best_effort p writer_id changes data_max_size_serialized =
    best_effort_loop (suc (length changes)) p writer_id changes data_max_size_serialized
