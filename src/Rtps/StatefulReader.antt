-- ===== src/Rtps/StatefulReader.antt =====
-- dds/src/rtps/stateful_reader.rs: a reader with its matched writers. The history cache, a trait
-- object, is the list of the changes handed to its `add_change`, oldest first.
pub mod Lookup
pub mod Delivery
pub mod Receive
pub mod Steps
pub mod Run
pub mod Order
pub mod Complete
pub mod Heartbeats
pub mod Answers
pub mod Gaps
use dust_dds.Base.{
  ℕ, ◌+◌, ◌-◌, Bool, true, false, not, ◌&&◌, ◌||◌, Option, none, some, List, [], ◌∷◌, ◌++◌, ◌==◌,
  ltb, leb, if◌then◌else◌, any, find, retain, length, range, not_usize, i32_lt, Outcome, ret, panic,
  stuck, ◌>>=◌,
}
use mathlib.Core.List.{foldl}
use dust_dds.Transport.Types.{Guid, GuidPrefix, ReliabilityKind, best_effort, reliable, guid_eq}
use dust_dds.Transport.History.{CacheChange, WriterProxy}
use dust_dds.Rtps.Messages.Types.{Time}
use dust_dds.Rtps.Messages.Submessages.{
  DataSubmessage, DataFragSubmessage, GapSubmessage, HeartbeatSubmessage, HeartbeatFragSubmessage,
  Message,
}
use dust_dds.Rtps.SequenceNumberSet.{elements}
use dust_dds.Rtps.CacheChange.{Result, ok, err, try_from_data_submessage}
use dust_dds.Rtps.WriterProxy
use dust_dds.Rtps.WriterProxy.{
  RtpsWriterProxy, available_changes_max, received_change_set, lost_changes_update,
  irrelevant_change_set, missing_changes, missing_changes_update, set_must_send_acknacks,
  set_last_received_heartbeat_count, set_last_received_heartbeat_frag_count,
}
use dust_dds.Rtps.WriterProxy.Fragments.{push_data_frag, reconstruct_data_from_frag}
use dust_dds.Rtps.WriterProxy.Sending.{send_message}
use dust_dds.Rtps.WriterProxy.Sending

pub record RtpsStatefulReader : Type 0 where
  pub guid : Guid
  pub matched_writers : List RtpsWriterProxy
  pub history_cache : List CacheChange

unfoldable pub new : Guid → RtpsStatefulReader
new guid = record { guid = guid; matched_writers = []; history_cache = [] }

unfoldable pub add_matched_writer : RtpsStatefulReader → WriterProxy → RtpsStatefulReader
unfolding WriterProxy.new
add_matched_writer r writer_proxy =
    if any (λ wp. guid_eq wp.remote_writer_guid writer_proxy.remote_writer_guid) r.matched_writers
    then r
    else record r {
      matched_writers =
          r.matched_writers
          ++ WriterProxy.new writer_proxy.remote_writer_guid writer_proxy.unicast_locator_list
              writer_proxy.multicast_locator_list (some writer_proxy.data_max_size_serialized)
              writer_proxy.remote_group_entity_id writer_proxy.reliability_kind
            ∷ [];
    }

unfoldable pub delete_matched_writer : RtpsStatefulReader → Guid → RtpsStatefulReader
delete_matched_writer r writer_guid = record r {
  matched_writers = retain (λ x. not (guid_eq x.remote_writer_guid writer_guid)) r.matched_writers;
}

-- `matched_writer_lookup` gives a mutable reference: the proxy is found, and put back changed.
unfoldable pub matched_writer_lookup : Guid → List RtpsWriterProxy → Option RtpsWriterProxy
matched_writer_lookup a_writer_guid writers =
    find (λ x. guid_eq x.remote_writer_guid a_writer_guid) writers

unfoldable pub put_writer : Guid → RtpsWriterProxy → List RtpsWriterProxy → List RtpsWriterProxy
put_writer a_writer_guid p [] = []
put_writer a_writer_guid p (x ∷ xs) =
    if guid_eq x.remote_writer_guid a_writer_guid then p ∷ xs else x ∷ put_writer a_writer_guid p xs

unfoldable pub with_writer : RtpsStatefulReader → Guid → RtpsWriterProxy → RtpsStatefulReader
unfolding put_writer
with_writer r writer_guid p = record r {
  matched_writers = put_writer writer_guid p r.matched_writers;
}

-- A change that cannot be converted is logged and discarded.
unfoldable pub add_change : RtpsStatefulReader → Result CacheChange → RtpsStatefulReader
add_change r (ok change) = record r { history_cache = r.history_cache ++ change ∷ [] }
add_change r (err e) = r

unfoldable pub received_by :
    ReliabilityKind
    → RtpsStatefulReader
    → Guid
    → RtpsWriterProxy
    → DataSubmessage
    → Result CacheChange
    → RtpsStatefulReader
unfolding with_writer add_change
received_by best_effort r writer_guid p message change =
    let sequence_number = message.writer_sn in
    let expected_seq_num = available_changes_max p + 1 in
    let received = received_change_set p sequence_number in
    let updated =
      if ltb expected_seq_num sequence_number
      then lost_changes_update received sequence_number
      else received in
    if leb expected_seq_num sequence_number
    then add_change (with_writer r writer_guid updated) change
    else r
received_by reliable r writer_guid p message change =
    let sequence_number = message.writer_sn in
    let expected_seq_num = available_changes_max p + 1 in
    if sequence_number == expected_seq_num
    then add_change (with_writer r writer_guid (received_change_set p sequence_number)) change
    else r

unfoldable pub on_data_submessage_received :
    RtpsStatefulReader → DataSubmessage → GuidPrefix → Option Time → RtpsStatefulReader
unfolding matched_writer_lookup received_by
on_data_submessage_received r message source_guid_prefix source_timestamp =
    let writer_guid : Guid = record {
      prefix = source_guid_prefix;
      entity_id = message.writer_id;
    } in
    elim (matched_writer_lookup writer_guid r.matched_writers) [
      | some p ↦
          received_by p.reliability r writer_guid p message
            (try_from_data_submessage message source_guid_prefix source_timestamp)
      | none ↦ r
    ]

-- The joined change, if there is one, is received like a DATA submessage.
unfoldable pub receive_joined :
    RtpsStatefulReader → Option DataSubmessage → GuidPrefix → Option Time → RtpsStatefulReader
receive_joined r (some message) source_guid_prefix source_timestamp =
    on_data_submessage_received r message source_guid_prefix source_timestamp
receive_joined r none source_guid_prefix source_timestamp = r

unfoldable pub on_data_frag_submessage_received :
    RtpsStatefulReader → DataFragSubmessage → GuidPrefix → Option Time → Outcome RtpsStatefulReader
unfolding matched_writer_lookup with_writer receive_joined
on_data_frag_submessage_received r message source_guid_prefix source_timestamp =
    let writer_guid : Guid = record {
      prefix = source_guid_prefix;
      entity_id = message.writer_id;
    } in
    elim (matched_writer_lookup writer_guid r.matched_writers) [
      | some p ↦ (do
        (p', joined) ← reconstruct_data_from_frag (push_data_frag p message) message.writer_sn
        ret (
            receive_joined (with_writer r writer_guid p') joined source_guid_prefix
              source_timestamp))
      | none ↦ ret r
    ]

unfoldable pub irrelevant_changes : RtpsWriterProxy → GapSubmessage → RtpsWriterProxy
irrelevant_changes p message =
    foldl irrelevant_change_set
      (foldl irrelevant_change_set p (range message.gap_start message.gap_list.base))
      (elements message.gap_list)

unfoldable pub on_gap_submessage_received :
    RtpsStatefulReader → GapSubmessage → GuidPrefix → RtpsStatefulReader
unfolding matched_writer_lookup with_writer irrelevant_changes
on_gap_submessage_received r message source_guid_prefix =
    let writer_guid : Guid = record {
      prefix = source_guid_prefix;
      entity_id = message.writer_id;
    } in
    elim (matched_writer_lookup writer_guid r.matched_writers) [
      | some p ↦ with_writer r writer_guid (irrelevant_changes p message)
      | none ↦ r
    ]

-- The proxy's part of a heartbeat that is not a repetition, up to its `send_message`.
unfoldable pub heartbeat_update : RtpsWriterProxy → HeartbeatSubmessage → RtpsWriterProxy
unfolding set_must_send_acknacks set_last_received_heartbeat_count missing_changes_update
    lost_changes_update
heartbeat_update p message =
    let counted = set_last_received_heartbeat_count p message.count in
    let asked = set_must_send_acknacks counted (
      not message.final_flag
      || (not message.liveliness_flag && not_usize (length (missing_changes counted)) == 0)) in
    let must = if not message.final_flag then set_must_send_acknacks asked true else asked in
    lost_changes_update (missing_changes_update must message.last_sn) message.first_sn

unfoldable pub on_heartbeat_submessage_received :
    RtpsStatefulReader
    → HeartbeatSubmessage
    → GuidPrefix
    → Outcome (RtpsStatefulReader × List Message)
unfolding matched_writer_lookup with_writer heartbeat_update
on_heartbeat_submessage_received r message source_guid_prefix =
    let writer_guid : Guid = record {
      prefix = source_guid_prefix;
      entity_id = message.writer_id;
    } in
    elim (matched_writer_lookup writer_guid r.matched_writers) [
      | some p ↦
          if i32_lt p.last_received_heartbeat_count message.count
          then (do
            (p', sent) ← send_message (heartbeat_update p message) r.guid
            ret (with_writer r writer_guid p', sent))
          else ret (r, [])
      | none ↦ ret (r, [])
    ]

-- The count is compared with that of the last heartbeat, not of the last fragment heartbeat.
unfoldable pub on_heartbeat_frag_submessage_received :
    RtpsStatefulReader → HeartbeatFragSubmessage → GuidPrefix → RtpsStatefulReader
unfolding matched_writer_lookup with_writer set_last_received_heartbeat_frag_count
on_heartbeat_frag_submessage_received r message source_guid_prefix =
    let writer_guid : Guid = record {
      prefix = source_guid_prefix;
      entity_id = message.writer_id;
    } in
    elim (matched_writer_lookup writer_guid r.matched_writers) [
      | some p ↦
          if i32_lt p.last_received_heartbeat_count message.count
          then with_writer r writer_guid (set_last_received_heartbeat_frag_count p message.count)
          else r
      | none ↦ r
    ]

unfoldable pub is_historical_data_received : RtpsStatefulReader → Bool
is_historical_data_received r =
    not (any (λ p. not (Sending.is_historical_data_received p)) r.matched_writers)
