-- ===== src/Rtps/WriterProxy.antt =====
-- dds/src/rtps/writer_proxy.rs: what a reader knows of one matched writer.
pub mod Fragments
pub mod Changes
pub mod Sending
pub mod Acknack
use dust_dds.Base.{
  ℕ, suc, ◌+◌, ◌-◌, Bool, false, Option, List, [], ltb, if◌then◌else◌, range_inclusive, i32_next,
  max_of,
}
use dust_dds.Transport.Types.{EntityId, Guid, Locator, ReliabilityKind, SequenceNumber}
use dust_dds.Rtps.Messages.Types.{Count}
use dust_dds.Rtps.Messages.Submessages.{DataFragSubmessage}

-- `frag_buffer`, a HashMap, is an association list: its order stands for the map's.
pub record RtpsWriterProxy : Type 0 where
  pub remote_writer_guid : Guid
  pub unicast_locator_list : List Locator
  pub multicast_locator_list : List Locator
  pub data_max_size_serialized : Option ℕ
  pub remote_group_entity_id : EntityId
  pub first_available_seq_num : SequenceNumber
  pub last_available_seq_num : SequenceNumber
  pub highest_received_change_sn : SequenceNumber
  pub must_send_acknacks : Bool
  pub last_received_heartbeat_count : Count
  pub last_received_heartbeat_frag_count : Count
  pub acknack_count : Count
  pub nack_frag_count : Count
  pub frag_buffer : List (SequenceNumber × List DataFragSubmessage)
  pub reliability : ReliabilityKind

unfoldable pub new :
    Guid → List Locator → List Locator → Option ℕ → EntityId → ReliabilityKind → RtpsWriterProxy
new remote_writer_guid unicast multicast data_max_size_serialized remote_group_entity_id
      reliability =
    record {
      remote_writer_guid = remote_writer_guid;
      unicast_locator_list = unicast;
      multicast_locator_list = multicast;
      data_max_size_serialized = data_max_size_serialized;
      remote_group_entity_id = remote_group_entity_id;
      first_available_seq_num = 1;
      last_available_seq_num = 0;
      highest_received_change_sn = 0;
      must_send_acknacks = false;
      last_received_heartbeat_count = 0;
      last_received_heartbeat_frag_count = 0;
      acknack_count = 0;
      nack_frag_count = 0;
      frag_buffer = [];
      reliability = reliability;
    }

-- Where `first_available_seq_num` is 0 the source's maximum is of -1 and a number that is never
-- negative, so the truncated difference gives the same.
unfoldable pub available_changes_max : RtpsWriterProxy → SequenceNumber
available_changes_max p = max_of (p.first_available_seq_num - 1) p.highest_received_change_sn

unfoldable pub received_change_set : RtpsWriterProxy → SequenceNumber → RtpsWriterProxy
received_change_set p a_seq_num =
    if ltb p.highest_received_change_sn a_seq_num
    then record p { highest_received_change_sn = a_seq_num }
    else p

unfoldable pub irrelevant_change_set : RtpsWriterProxy → SequenceNumber → RtpsWriterProxy
irrelevant_change_set p a_seq_num =
    if ltb p.highest_received_change_sn a_seq_num
    then record p { highest_received_change_sn = a_seq_num }
    else p

unfoldable pub lost_changes_update : RtpsWriterProxy → SequenceNumber → RtpsWriterProxy
lost_changes_update p first_available_seq_num = record p {
  first_available_seq_num = first_available_seq_num;
}

unfoldable pub missing_changes : RtpsWriterProxy → List SequenceNumber
missing_changes p =
    range_inclusive (max_of p.first_available_seq_num (p.highest_received_change_sn + 1))
      (max_of p.last_available_seq_num p.highest_received_change_sn)

unfoldable pub missing_changes_update : RtpsWriterProxy → SequenceNumber → RtpsWriterProxy
missing_changes_update p last_available_seq_num = record p {
  last_available_seq_num = last_available_seq_num;
}

unfoldable pub set_must_send_acknacks : RtpsWriterProxy → Bool → RtpsWriterProxy
set_must_send_acknacks p must_send_acknacks = record p { must_send_acknacks = must_send_acknacks }

unfoldable pub set_last_received_heartbeat_count : RtpsWriterProxy → Count → RtpsWriterProxy
set_last_received_heartbeat_count p count = record p { last_received_heartbeat_count = count }

unfoldable pub set_last_received_heartbeat_frag_count : RtpsWriterProxy → Count → RtpsWriterProxy
set_last_received_heartbeat_frag_count p count = record p {
  last_received_heartbeat_frag_count = count;
}

unfoldable pub increment_acknack_count : RtpsWriterProxy → RtpsWriterProxy
increment_acknack_count p = record p { acknack_count = i32_next p.acknack_count }
