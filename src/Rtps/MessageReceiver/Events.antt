-- ===== src/Rtps/MessageReceiver/Events.antt =====
-- What a message is to the entities of each kind: the submessages that concern them, with the
-- source and the timestamp that the INFO submessages before them set.
use dust_dds.Base.{ℕ, suc, true, false, List, [], ◌∷◌, ◌++◌, if◌then◌else◌, Outcome, ret, ◌>>=◌}
use dust_dds.Transport.Types.{GuidPrefix}
use dust_dds.Rtps.Messages.Types.{time_invalid}
use dust_dds.Rtps.Messages.Submessages.{
  Submessage, ack_nack, data_message, data_frag, gap, heartbeat, heartbeat_frag, info_destination,
  info_reply, info_source, info_timestamp, nack_frag, Message, AckNackSubmessage,
  NackFragSubmessage,
}
use dust_dds.Rtps.StatelessReader.{RtpsStatelessReader}
use dust_dds.Rtps.StatelessReader
use dust_dds.Rtps.StatefulReader.Run.{
  Event, data_event, data_frag_event, gap_event, heartbeat_event, heartbeat_frag_event,
}
use dust_dds.Rtps.StatefulWriter.{
  RtpsStatefulWriter, on_acknack_submessage_received, on_nack_frag_submessage_received,
}
use dust_dds.Rtps.MessageReceiver.{MessageReceiver, source_timestamp}

-- What a writer is given: a submessage, its source and the time of the call.
pub data WriterEvent : Type 0 where
  acknack_event : AckNackSubmessage → GuidPrefix → ℕ → WriterEvent
  nack_frag_event : NackFragSubmessage → GuidPrefix → ℕ → WriterEvent

abbrev writer_of : RtpsStatefulWriter × List Message → Outcome RtpsStatefulWriter
writer_of x = ret x.0

unfoldable pub writer_step : RtpsStatefulWriter → WriterEvent → Outcome RtpsStatefulWriter
writer_step w (acknack_event m prefix now) =
    on_acknack_submessage_received w m prefix now >>= writer_of
writer_step w (nack_frag_event m prefix now) =
    on_nack_frag_submessage_received w m prefix now >>= writer_of

unfoldable pub run_writer : RtpsStatefulWriter → List WriterEvent → Outcome RtpsStatefulWriter
unfolding writer_step
run_writer w [] = ret w
run_writer w (e ∷ es) = writer_step w e >>= λ w'. run_writer w' es

-- The state in which the next submessage is read.
unfoldable pub after : MessageReceiver → Submessage → MessageReceiver
after s (info_destination m) = record s { dest_guid_prefix = m.guid_prefix }
after s (info_source m) = record s {
  source_vendor_id = m.vendor_id;
  source_version = m.protocol_version;
  source_guid_prefix = m.guid_prefix;
}
after s (info_timestamp m) = record s {
  have_timestamp = if m.invalidate_flag then false else true;
  timestamp = if m.invalidate_flag then time_invalid else m.timestamp;
}
after s m = s

-- What a submessage is to a stateful reader, a stateless reader and a stateful writer.
unfoldable pub to_reader : MessageReceiver → Submessage → List Event
to_reader s (data_message m) = data_event m s.source_guid_prefix (source_timestamp s) ∷ []
to_reader s (data_frag m) = data_frag_event m s.source_guid_prefix (source_timestamp s) ∷ []
to_reader s (gap m) = gap_event m s.source_guid_prefix ∷ []
to_reader s (heartbeat m) = heartbeat_event m s.source_guid_prefix ∷ []
to_reader s (heartbeat_frag m) = heartbeat_frag_event m s.source_guid_prefix ∷ []
to_reader s m = []

unfoldable pub to_stateless :
    MessageReceiver → Submessage → RtpsStatelessReader → RtpsStatelessReader
to_stateless s (data_message m) r =
    StatelessReader.on_data_submessage_received r m s.source_guid_prefix (source_timestamp s)
to_stateless s m r = r

unfoldable pub to_writer : ℕ → MessageReceiver → Submessage → List WriterEvent
to_writer now s (ack_nack m) = acknack_event m s.source_guid_prefix now ∷ []
to_writer now s (nack_frag m) = nack_frag_event m s.source_guid_prefix now ∷ []
to_writer now s m = []

unfoldable pub reader_events : MessageReceiver → List Submessage → List Event
unfolding to_reader after
reader_events s [] = []
reader_events s (m ∷ ms) = to_reader s m ++ reader_events (after s m) ms

unfoldable pub run_stateless :
    MessageReceiver → List Submessage → RtpsStatelessReader → RtpsStatelessReader
unfolding to_stateless after
run_stateless s [] r = r
run_stateless s (m ∷ ms) r = run_stateless (after s m) ms (to_stateless s m r)

unfoldable pub writer_events : (ℕ → ℕ) → MessageReceiver → List Submessage → List WriterEvent
unfolding to_writer after
writer_events now s [] = []
writer_events now s (m ∷ ms) =
    to_writer (now 0) s m ++ writer_events (λ i. now (suc i)) (after s m) ms

-- A message without the submessage that is a `todo!()`.
unfoldable pub Readable : List Submessage → Type 0
Readable [] = Unit
Readable (info_reply m ∷ ms) = ⊥
Readable (m ∷ ms) = Readable ms
