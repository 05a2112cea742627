-- ===== src/Rtps/Messages/Submessages.antt =====
-- dds/src/rtps/messages/submessages and submessage_elements.rs: the submessages as values.
use native.Mathlib.Decide.{ℕ_discrete}
use dust_dds.Base.{ℕ, ◌-◌, Bool, List, take, drop}
use dust_dds.Transport.Types.{
  EntityId, EntityId-discrete, GuidPrefix, Locator, ProtocolVersion, SequenceNumber, truth,
}
use dust_dds.Rtps.Messages.Types.{Count, FragmentNumber, ParameterId, Time}
use dust_dds.Rtps.SequenceNumberSet.{SequenceNumberSet}

pub record Parameter : Type 0 where
  pub parameter_id : ParameterId
  pub value : List ℕ

abbrev pub ParameterList : Type 0
ParameterList = List Parameter

-- A range of a shared buffer.
pub record SerializedDataFragment : Type 0 where
  pub data_value : List ℕ
  pub start : ℕ
  pub stop : ℕ

-- `as_ref`: the octets of the range.
abbrev pub as_ref : SerializedDataFragment → List ℕ
as_ref f = take (f.stop - f.start) (drop f.start f.data_value)

pub record FragmentNumberSet : Type 0 where
  pub base : FragmentNumber
  pub members : List FragmentNumber

pub record DataSubmessage : Type 0 where
  pub inline_qos_flag : Bool
  pub data_flag : Bool
  pub key_flag : Bool
  pub non_standard_payload_flag : Bool
  pub reader_id : EntityId
  pub writer_id : EntityId
  pub writer_sn : SequenceNumber
  pub inline_qos : ParameterList
  pub serialized_payload : List ℕ

pub record DataFragSubmessage : Type 0 where
  pub inline_qos_flag : Bool
  pub non_standard_payload_flag : Bool
  pub key_flag : Bool
  pub reader_id : EntityId
  pub writer_id : EntityId
  pub writer_sn : SequenceNumber
  pub fragment_starting_num : FragmentNumber
  pub fragments_in_submessage : ℕ
  pub fragment_size : ℕ
  pub data_size : ℕ
  pub inline_qos : ParameterList
  pub serialized_payload : SerializedDataFragment

pub record GapSubmessage : Type 0 where
  pub reader_id : EntityId
  pub writer_id : EntityId
  pub gap_start : SequenceNumber
  pub gap_list : SequenceNumberSet

pub record HeartbeatSubmessage : Type 0 where
  pub final_flag : Bool
  pub liveliness_flag : Bool
  pub reader_id : EntityId
  pub writer_id : EntityId
  pub first_sn : SequenceNumber
  pub last_sn : SequenceNumber
  pub count : Count

pub record HeartbeatFragSubmessage : Type 0 where
  pub reader_id : EntityId
  pub writer_id : EntityId
  pub writer_sn : SequenceNumber
  pub last_fragment_num : FragmentNumber
  pub count : Count

pub record AckNackSubmessage : Type 0 where
  pub final_flag : Bool
  pub reader_id : EntityId
  pub writer_id : EntityId
  pub reader_sn_state : SequenceNumberSet
  pub count : Count

pub record NackFragSubmessage : Type 0 where
  pub reader_id : EntityId
  pub writer_id : EntityId
  pub writer_sn : SequenceNumber
  pub fragment_number_state : FragmentNumberSet
  pub count : Count

pub record InfoDestinationSubmessage : Type 0 where
  pub guid_prefix : GuidPrefix

pub record InfoSourceSubmessage : Type 0 where
  pub protocol_version : ProtocolVersion
  pub vendor_id : List ℕ
  pub guid_prefix : GuidPrefix

pub record InfoTimestampSubmessage : Type 0 where
  pub invalidate_flag : Bool
  pub timestamp : Time

pub record InfoReplySubmessage : Type 0 where
  pub multicast_flag : Bool
  pub unicast_locator_list : List Locator
  pub multicast_locator_list : List Locator

-- RtpsSubmessageReadKind of overall_structure.rs.
pub data Submessage : Type 0 where
  ack_nack : AckNackSubmessage → Submessage
  data_message : DataSubmessage → Submessage
  data_frag : DataFragSubmessage → Submessage
  gap : GapSubmessage → Submessage
  heartbeat : HeartbeatSubmessage → Submessage
  heartbeat_frag : HeartbeatFragSubmessage → Submessage
  info_destination : InfoDestinationSubmessage → Submessage
  info_reply : InfoReplySubmessage → Submessage
  info_source : InfoSourceSubmessage → Submessage
  info_timestamp : InfoTimestampSubmessage → Submessage
  nack_frag : NackFragSubmessage → Submessage
  pad : Submessage

-- RtpsMessageHeader and RtpsMessageRead of overall_structure.rs.
pub record RtpsMessageHeader : Type 0 where
  pub version : ProtocolVersion
  pub vendor_id : List ℕ
  pub guid_prefix : GuidPrefix

pub record RtpsMessageRead : Type 0 where
  pub header : RtpsMessageHeader
  pub submessages : List Submessage

-- One call of `MessageSender::write_message`: the submessages and the destinations.
pub record Message : Type 0 where
  pub submessages : List Submessage
  pub destination_locator_list : List Locator

-- The derived `==`, by which the fragment buffer finds repetitions.
unfoldable pub DataFragSubmessage-discrete : Discrete DataFragSubmessage
unfolding ℕ_discrete EntityId-discrete
DataFragSubmessage-discrete = hlevel (ℕ_discrete, EntityId-discrete)

unfoldable pub data_frag_eq : DataFragSubmessage → DataFragSubmessage → Bool
unfolding DataFragSubmessage-discrete
data_frag_eq a b = truth (DataFragSubmessage-discrete a b)
