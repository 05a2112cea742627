-- ===== src/Dds/DataWriter.antt =====
-- dds/src/implementation/domain_participant_backend/entities/data_writer.rs: the state of a data
-- writer. The transport writer behind the trait object is the list of the calls of its history
-- cache, oldest first; what it says of acknowledgements is an argument of the operations that ask.
-- A sequence number is a natural number. Names and the listener are left out.
pub mod Writing
pub mod Matching
use dust_dds.Base.{ℕ, Bool, Option, List}
use dust_dds.Transport.Types.{Guid, SequenceNumber}
use dust_dds.Transport.History.{CacheChange}
use dust_dds.Dds.Handles.{InstanceHandle, HashMap}
use dust_dds.Dds.TypeSupport.{TypeSupport}
use dust_dds.Dds.Time.{DurationKind}
use dust_dds.Dds.Qos.{
  DataWriterQos, DurabilityQosPolicyKind, LivelinessQosPolicy, ReliabilityQosPolicy,
  OwnershipQosPolicyKind, DestinationOrderQosPolicyKind, PresentationQosPolicy,
}
use dust_dds.Dds.Status.{
  StatusMail, OfferedDeadlineMissedStatus, OfferedIncompatibleQosStatus, PublicationMatchedStatus,
}

pub data HistoryCall : Type 0 where
  add_change : CacheChange → HistoryCall
  remove_change : SequenceNumber → HistoryCall

-- TransportWriterKind: stateful or stateless.
pub record TransportWriter : Type 0 where
  pub is_stateful : Bool
  pub guid : Guid
  pub history_cache : List HistoryCall

-- What the writer and the matching use of a SubscriptionBuiltinTopicData.
pub record SubscriptionBuiltinTopicData : Type 0 where
  pub key : InstanceHandle
  pub durability : DurabilityQosPolicyKind
  pub deadline : DurationKind
  pub latency_budget : DurationKind
  pub liveliness : LivelinessQosPolicy
  pub reliability : ReliabilityQosPolicy
  pub ownership : OwnershipQosPolicyKind
  pub destination_order : DestinationOrderQosPolicyKind
  pub presentation : PresentationQosPolicy
  pub representation : List ℕ

pub record DataWriterEntity : Type 0 where
  pub instance_handle : InstanceHandle
  pub transport_writer : TransportWriter
  pub type_support : TypeSupport
  pub matched_subscription_list : HashMap SubscriptionBuiltinTopicData
  pub publication_matched_status : PublicationMatchedStatus
  pub incompatible_subscription_list : List InstanceHandle
  pub offered_incompatible_qos_status : OfferedIncompatibleQosStatus
  pub enabled : Bool
  pub status_condition : List StatusMail
  pub max_seq_num : Option SequenceNumber
  pub last_change_sequence_number : SequenceNumber
  pub qos : DataWriterQos
  pub registered_instance_list : List InstanceHandle
  pub offered_deadline_missed_status : OfferedDeadlineMissedStatus
  pub instance_deadline_missed_task : HashMap ℕ
  pub aborted_tasks : List ℕ
  pub instance_samples : HashMap (List SequenceNumber)
