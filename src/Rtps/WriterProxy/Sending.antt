-- ===== src/Rtps/WriterProxy/Sending.antt =====
-- `send_message` of dds/src/rtps/writer_proxy.rs: the ACKNACK and NACK_FRAG submessages of a reader.
use dust_dds.Base.{
  ◌+◌, Bool, true, false, ◌&&◌, ◌||◌, List, [], ◌∷◌, ◌++◌, ◌==◌, if◌then◌else◌, length, take,
  not_usize, i32_next, i32_lt, Outcome, ret, panic, ◌>>=◌,
}
use dust_dds.Transport.Types.{Guid, SequenceNumber}
use dust_dds.Rtps.SequenceNumberSet
use dust_dds.Rtps.Messages.Types.{Count, FragmentNumber}
use dust_dds.Rtps.Messages.Submessages.{Submessage, ack_nack, info_destination, nack_frag, Message}
use dust_dds.Rtps.WriterProxy.{
  RtpsWriterProxy, available_changes_max, missing_changes, set_must_send_acknacks,
  increment_acknack_count,
}
use dust_dds.Rtps.WriterProxy.Fragments.{FragBuffer, total_fragments_expected, missing_fragments}

-- The NACK_FRAG of one entry, if a fragment is missing.
unfoldable pub nack_frag_of :
    Guid → Guid → SequenceNumber → List FragmentNumber → Count → Count × List Submessage
nack_frag_of reader_guid writer_guid seq_num [] count = (count, [])
nack_frag_of reader_guid writer_guid seq_num (n ∷ ns) count = (
  i32_next count,
  nack_frag (record {
    reader_id = reader_guid.entity_id;
    writer_id = writer_guid.entity_id;
    writer_sn = seq_num;
    fragment_number_state = record { base = n; members = n ∷ ns };
    count = i32_next count;
  })
      ∷ [],
)

-- The loop over the fragment buffer. `owning_data_frag_list[0]` panics on the empty list.
unfoldable pub nack_frags : Guid → Guid → FragBuffer → Count → Outcome (Count × List Submessage)
unfolding nack_frag_of
nack_frags reader_guid writer_guid [] count = ret (count, [])
nack_frags reader_guid writer_guid ((seq_num, []) ∷ rest) count = panic
nack_frags reader_guid writer_guid ((seq_num, f ∷ fs) ∷ rest) count = do
  expected ← total_fragments_expected f
  let (count', sent) =
      nack_frag_of reader_guid writer_guid seq_num (missing_fragments (f ∷ fs) expected) count
  (count'', later) ← nack_frags reader_guid writer_guid rest count'
  ret (count'', sent ++ later)

-- `self.must_send_acknacks() || !self.missing_changes().count() == 0`, in which `!` negates the
-- bits of the count.
unfoldable pub wants_to_send : RtpsWriterProxy → Bool
wants_to_send p = p.must_send_acknacks || not_usize (length (missing_changes p)) == 0

unfoldable pub acknack_message : RtpsWriterProxy → Guid → Outcome (RtpsWriterProxy × List Message)
unfolding nack_frags
acknack_message p reader_guid = do
  reader_sn_state ←
      SequenceNumberSet.new (available_changes_max p + 1) (take 256 (missing_changes p))
  (nack_frag_count, nacks) ←
      nack_frags reader_guid p.remote_writer_guid p.frag_buffer p.nack_frag_count
  ret (
    record p { nack_frag_count = nack_frag_count },
    record {
      submessages =
          info_destination (record { guid_prefix = p.remote_writer_guid.prefix })
          ∷ ack_nack (record {
            final_flag = true;
            reader_id = reader_guid.entity_id;
            writer_id = p.remote_writer_guid.entity_id;
            reader_sn_state = reader_sn_state;
            count = p.acknack_count;
          })
          ∷ nacks;
      destination_locator_list = p.unicast_locator_list;
    }
        ∷ [],
  )

unfoldable pub send_message : RtpsWriterProxy → Guid → Outcome (RtpsWriterProxy × List Message)
unfolding wants_to_send acknack_message increment_acknack_count set_must_send_acknacks
send_message p reader_guid =
    if wants_to_send p
    then acknack_message (increment_acknack_count (set_must_send_acknacks p false)) reader_guid
    else ret (p, [])

unfoldable pub is_historical_data_received : RtpsWriterProxy → Bool
is_historical_data_received p =
    i32_lt 0 p.last_received_heartbeat_count && length (missing_changes p) == 0
