-- ===== src/Rtps/Examples/Fixture.antt =====
-- A writer, a reader and the submessages between them, for the examples.
use dust_dds.Base.{ℕ, Bool, true, false, none, some, List, [], ◌∷◌}
use dust_dds.Transport.Types.{
  EntityId, Guid, ReliabilityKind, reliable, alive, entityid_unknown, guidprefix_unknown,
}
use dust_dds.Transport.History.{CacheChange}
use dust_dds.Rtps.SequenceNumberSet
use dust_dds.Rtps.SequenceNumberSet.{SequenceNumberSet}
use dust_dds.Rtps.ReaderProxy.{RtpsReaderProxy}
use dust_dds.Rtps.StatefulWriter.{RtpsStatefulWriter}
use dust_dds.Rtps.Messages.Submessages.{
  DataSubmessage, AckNackSubmessage, GapSubmessage, HeartbeatSubmessage,
}
use dust_dds.Rtps.CacheChange.{as_data_submessage}
use dust_dds.Rtps.WriterProxy.{RtpsWriterProxy}
use dust_dds.Rtps.StatefulReader.{RtpsStatefulReader}

abbrev pub writer_id : EntityId
writer_id = record { entity_key = 1 ∷ 2 ∷ 3 ∷ []; entity_kind = 2 }

abbrev pub reader_id : EntityId
reader_id = record { entity_key = 4 ∷ 5 ∷ 6 ∷ []; entity_kind = 7 }

abbrev pub writer_guid : Guid
writer_guid = record { prefix = guidprefix_unknown; entity_id = writer_id }

abbrev pub reader_guid : Guid
reader_guid = record { prefix = guidprefix_unknown; entity_id = reader_id }

abbrev pub change : ℕ → List ℕ → CacheChange
change sn octets = record {
  kind = alive;
  writer_guid = writer_guid;
  sequence_number = sn;
  source_timestamp = none;
  instance_handle = none;
  data_value = octets;
}

abbrev pub data_of : ℕ → DataSubmessage
data_of sn = as_data_submessage (change sn (sn ∷ 10 ∷ [])) reader_id writer_id

abbrev pub heartbeat_of : Bool → ℕ → ℕ → HeartbeatSubmessage
heartbeat_of final_flag last_sn count = record {
  final_flag = final_flag;
  liveliness_flag = false;
  reader_id = reader_id;
  writer_id = writer_id;
  first_sn = 1;
  last_sn = last_sn;
  count = count;
}

abbrev pub gap_between : ℕ → ℕ → GapSubmessage
gap_between start stop = record {
  reader_id = reader_id;
  writer_id = writer_id;
  gap_start = start;
  gap_list = SequenceNumberSet.empty stop;
}

abbrev pub proxy : ReliabilityKind → RtpsWriterProxy
proxy reliability = record {
  remote_writer_guid = writer_guid;
  unicast_locator_list = [];
  multicast_locator_list = [];
  data_max_size_serialized = some 1000;
  remote_group_entity_id = entityid_unknown;
  first_available_seq_num = 1;
  last_available_seq_num = 0;
  highest_received_change_sn = 0;
  must_send_acknacks = false;
  last_received_heartbeat_count = 0;
  last_received_heartbeat_frag_count = 0;
  acknack_count = 0;
  nack_frag_count = 0;
  frag_buffer = [];
  reliability = reliability;
}

abbrev pub reader : ReliabilityKind → RtpsStatefulReader
reader reliability = record {
  guid = reader_guid;
  matched_writers = proxy reliability ∷ [];
  history_cache = [];
}

abbrev pub reader_proxy : ReliabilityKind → ℕ → RtpsReaderProxy
reader_proxy reliability highest_sent_seq_num = record {
  remote_reader_guid = reader_guid;
  remote_group_entity_id = entityid_unknown;
  unicast_locator_list = [];
  multicast_locator_list = [];
  highest_sent_seq_num = highest_sent_seq_num;
  highest_acked_seq_num = 0;
  requested_changes = [];
  expects_inline_qos = false;
  is_active = true;
  last_received_acknack_count = 0;
  last_received_nack_frag_count = 0;
  heartbeat_machine = record { count = 0; reader_id = reader_id; timer = 0 };
  heartbeat_frag_machine = record { count = 0; reader_id = reader_id };
  reliability = reliability;
  first_relevant_sample_seq_num = 0;
}

-- Two changes, the second of which takes three fragments.
abbrev pub two_changes : List CacheChange
two_changes = change 1 (7 ∷ 8 ∷ []) ∷ change 2 (1 ∷ 2 ∷ 3 ∷ 4 ∷ 5 ∷ []) ∷ []

abbrev pub writer : RtpsStatefulWriter
writer = record {
  guid = writer_guid;
  changes = two_changes;
  matched_readers = reader_proxy reliable 2 ∷ [];
  heartbeat_period = record { seconds = 0; fraction = 0 };
  data_max_size_serialized = 2;
}

abbrev pub acknack_of : SequenceNumberSet → AckNackSubmessage
acknack_of set = record {
  final_flag = true;
  reader_id = reader_id;
  writer_id = writer_id;
  reader_sn_state = set;
  count = 1;
}
