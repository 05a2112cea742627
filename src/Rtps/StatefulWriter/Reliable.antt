-- ===== src/Rtps/StatefulWriter/Reliable.antt =====
-- The reliable half of dds/src/rtps/stateful_writer.rs. `now` is the clock at the call.
use dust_dds.Base.{
  ℕ, zero, suc, ◌+◌, ◌-◌, not, Option, none, some, List, [], ◌∷◌, ◌++◌, ltb, if◌then◌else◌, length,
  is_empty, unwrap_or, range, Outcome, ret, stuck, ◌>>=◌,
}
use dust_dds.Transport.Types.{EntityId, SequenceNumber, entityid_unknown}
use dust_dds.Transport.History.{CacheChange}
use dust_dds.Rtps.Messages.Submessages.{Submessage, data_message, heartbeat, Message}
use dust_dds.Rtps.CacheChange.{as_data_submessage}
use dust_dds.Rtps.ReaderProxy.{
  RtpsReaderProxy, is_time_for_heartbeat, generate_new_heartbeat, next_requested_change,
  next_unsent_change, unsent_changes, unacked_changes, set_highest_sent_seq_num,
}
use dust_dds.Rtps.StatefulWriter.Sending.{
  number_of_fragments, fragment_messages, find_change, gap_of, message_to, info_dst,
  info_timestamp_of,
}

-- What stays the same in one call.
pub record Sender : Type 0 where
  pub writer_id : EntityId
  pub changes : List CacheChange
  pub seq_num_min : Option SequenceNumber
  pub seq_num_max : Option SequenceNumber
  pub data_max_size_serialized : ℕ
  pub heartbeat_period : ℕ
  pub now : ℕ

-- `first_sn` is `seq_num_min.unwrap_or(1)` and `last_sn` is `seq_num_max.unwrap_or(0)`.
unfoldable pub new_heartbeat : Sender → RtpsReaderProxy → RtpsReaderProxy × Submessage
unfolding generate_new_heartbeat
new_heartbeat w p =
    let (machine, message) =
      generate_new_heartbeat p.heartbeat_machine w.now w.writer_id (unwrap_or w.seq_num_min 1)
        (unwrap_or w.seq_num_max 0) in
    (record p { heartbeat_machine = machine }, heartbeat message)

unfoldable pub send_relevant_change :
    Sender → RtpsReaderProxy → CacheChange → Outcome (RtpsReaderProxy × List Message)
unfolding number_of_fragments fragment_messages info_timestamp_of new_heartbeat
send_relevant_change w p change = do
  n ← number_of_fragments (length change.data_value) w.data_max_size_serialized
  if ltb 1 n
      then (do
        sent ← fragment_messages p w.writer_id change w.data_max_size_serialized (range 0 n)
        ret (p, sent))
      else (let (p', beat) = new_heartbeat w p in
          ret (
            p',
            message_to p (
                  info_dst p
                  ∷ info_timestamp_of change
                  ∷ data_message
                      (as_data_submessage change p.remote_reader_guid.entity_id w.writer_id)
                  ∷ beat
                  ∷ [])
                ∷ [],
          ))

abbrev pub single_gap :
    Sender → RtpsReaderProxy → SequenceNumber → Outcome (RtpsReaderProxy × List Message)
single_gap w p sn =
    ret (p, message_to p (info_dst p ∷ gap_of entityid_unknown w.writer_id sn sn ∷ []) ∷ [])

unfoldable pub send_change_message_reader_proxy_reliable :
    Sender → RtpsReaderProxy → SequenceNumber → Outcome (RtpsReaderProxy × List Message)
unfolding find_change send_relevant_change
send_change_message_reader_proxy_reliable w p change_seq_num =
    elim (find_change w.changes change_seq_num) [
      | some change ↦
          if ltb p.first_relevant_sample_seq_num change_seq_num
          then send_relevant_change w p change
          else single_gap w p change_seq_num
      | none ↦ single_gap w p change_seq_num
    ]

-- One round of the loop over the unsent changes, up to `set_highest_sent_seq_num`.
unfoldable pub unsent_round :
    Sender → RtpsReaderProxy → SequenceNumber → Outcome (RtpsReaderProxy × List Message)
unfolding new_heartbeat send_change_message_reader_proxy_reliable
unsent_round w p next_sn =
    if ltb (p.highest_sent_seq_num + 1) next_sn
    then (let (p', beat) = new_heartbeat w p in
        ret (
          p',
          message_to p (
                info_dst p
                ∷ gap_of p.remote_reader_guid.entity_id w.writer_id (p.highest_sent_seq_num + 1)
                    (next_sn - 1)
                ∷ beat
                ∷ [])
              ∷ [],
        ))
    else send_change_message_reader_proxy_reliable w p next_sn

unfoldable pub unsent_loop : ℕ → Sender → RtpsReaderProxy → Outcome (RtpsReaderProxy × List Message)
unfolding unsent_round
unsent_loop zero w p = stuck
unsent_loop (suc fuel) w p = elim (next_unsent_change p w.changes) [
  | none ↦ ret (p, [])
  | some next_sn ↦ (do
    (p', sent) ← unsent_round w p next_sn
    (p'', later) ← unsent_loop fuel w (set_highest_sent_seq_num p' next_sn)
    ret (p'', sent ++ later))
]

unfoldable pub requested_loop :
    ℕ → Sender → RtpsReaderProxy → Outcome (RtpsReaderProxy × List Message)
requested_loop zero w p = stuck
requested_loop (suc fuel) w p =
    let (next, p') = next_requested_change p in
    elim next [
      | none ↦ ret (p', [])
      | some next_sn ↦ (do
        (p'', sent) ← send_change_message_reader_proxy_reliable w p' next_sn
        (p''', later) ← requested_loop fuel w p''
        ret (p''', sent ++ later))
    ]

-- The upper part of the state machine.
unfoldable pub send_unsent : Sender → RtpsReaderProxy → Outcome (RtpsReaderProxy × List Message)
unfolding unsent_loop new_heartbeat
send_unsent w p =
    if unsent_changes p w.changes
    then unsent_loop (suc (length w.changes)) w p
    else if not (unacked_changes p w.seq_num_max)
    then ret (p, [])
    else if is_time_for_heartbeat p.heartbeat_machine w.heartbeat_period w.now
    then (let (p', beat) = new_heartbeat w p in
        ret (p', message_to p (info_dst p ∷ beat ∷ []) ∷ []))
    else ret (p, [])

-- The middle part of the state machine.
unfoldable pub send_requested : Sender → RtpsReaderProxy → Outcome (RtpsReaderProxy × List Message)
unfolding requested_loop
send_requested w p =
    if not (is_empty p.requested_changes)
    then requested_loop (suc (length p.requested_changes)) w p
    else ret (p, [])

unfoldable pub send_message_to_reader_proxy_reliable :
    Sender → RtpsReaderProxy → Outcome (RtpsReaderProxy × List Message)
unfolding send_unsent send_requested
send_message_to_reader_proxy_reliable w p = do
  (p', sent) ← send_unsent w p
  (p'', later) ← send_requested w p'
  ret (p'', sent ++ later)
