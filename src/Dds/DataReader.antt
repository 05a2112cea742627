-- ===== src/Dds/DataReader.antt =====
-- dds/src/implementation/domain_participant_backend/entities/data_reader.rs: the state of a data
-- reader. The type support is its two functions that compute a handle; a task handle is a number,
-- and the aborted tasks are listed. Names, the listener and the statuses that no operation changes
-- are left out, with the operations that only give them back.
pub mod Collection
pub mod Reading
pub mod Adding
pub mod Matching
use dust_dds.Base.{
  ℕ, ◌+◌, ◌%◌, ◌^◌, Bool, true, false, Option, none, List, [], ◌||◌, if◌then◌else◌, i32_next,
}
use dust_dds.Transport.Types.{
  ChangeKind, alive, alive_filtered, not_alive_disposed, not_alive_unregistered,
  not_alive_disposed_unregistered,
}
use dust_dds.Dds.Errors.{DdsResult}
use dust_dds.Dds.Handles.{InstanceHandle, HashMap}
use dust_dds.Dds.TypeSupport.{TypeSupport}
use dust_dds.Dds.Time.{Time, DurationKind}
use dust_dds.Dds.Qos.{
  DataReaderQos, DurabilityQosPolicyKind, LivelinessQosPolicy, ReliabilityQosPolicy,
  OwnershipQosPolicyKind, DestinationOrderQosPolicyKind, PresentationQosPolicy,
}
use dust_dds.Dds.Status.{
  StatusMail, SampleRejectedStatus, RequestedDeadlineMissedStatus, SubscriptionMatchedStatus,
  RequestedIncompatibleQosStatus, not_rejected,
}

pub data ViewStateKind : Type 0 where
  view_new view_not_new : ViewStateKind

pub data InstanceStateKind : Type 0 where
  instance_alive instance_not_alive_disposed instance_not_alive_no_writers : InstanceStateKind

pub data SampleStateKind : Type 0 where
  sample_read sample_not_read : SampleStateKind

pub record InstanceState : Type 0 where
  pub view_state : ViewStateKind
  pub instance_state : InstanceStateKind
  pub most_recent_disposed_generation_count : ℕ
  pub most_recent_no_writers_generation_count : ℕ

abbrev pub new_instance_state : InstanceState
new_instance_state = record {
  view_state = view_new;
  instance_state = instance_alive;
  most_recent_disposed_generation_count = 0;
  most_recent_no_writers_generation_count = 0;
}

-- The two halves of `update_state`.
unfoldable pub update_instance_state :
    InstanceStateKind → ChangeKind → InstanceState → InstanceState
update_instance_state instance_alive not_alive_disposed i = record i {
  instance_state = instance_not_alive_disposed;
}
update_instance_state instance_alive not_alive_disposed_unregistered i = record i {
  instance_state = instance_not_alive_disposed;
}
update_instance_state instance_alive not_alive_unregistered i = record i {
  instance_state = instance_not_alive_no_writers;
}
update_instance_state instance_not_alive_disposed alive i = record i {
  instance_state = instance_alive;
  most_recent_disposed_generation_count = i32_next i.most_recent_disposed_generation_count;
}
update_instance_state instance_not_alive_no_writers alive i = record i {
  instance_state = instance_alive;
  most_recent_no_writers_generation_count = i32_next i.most_recent_no_writers_generation_count;
}
update_instance_state state kind i = i

unfoldable pub update_view_state : ViewStateKind → ChangeKind → InstanceState → InstanceState
update_view_state view_not_new not_alive_disposed i = record i { view_state = view_new }
update_view_state view_not_new not_alive_unregistered i = record i { view_state = view_new }
update_view_state state kind i = i

unfoldable pub update_state : InstanceState → ChangeKind → InstanceState
unfolding update_instance_state update_view_state
update_state i change_kind =
    update_view_state i.view_state change_kind
      (update_instance_state i.instance_state change_kind i)

abbrev pub mark_viewed : InstanceState → InstanceState
mark_viewed i = record i { view_state = view_not_new }

pub record ReaderSample : Type 0 where
  pub kind : ChangeKind
  pub writer_guid : List ℕ
  pub instance_handle : InstanceHandle
  pub source_timestamp : Option Time
  pub data_value : List ℕ
  pub sample_state : SampleStateKind
  pub disposed_generation_count : ℕ
  pub no_writers_generation_count : ℕ
  pub reception_timestamp : Time

-- dds/src/dds/subscription/sample_info.rs
pub record SampleInfo : Type 0 where
  pub sample_state : SampleStateKind
  pub view_state : ViewStateKind
  pub instance_state : InstanceStateKind
  pub disposed_generation_count : ℕ
  pub no_writers_generation_count : ℕ
  pub sample_rank : ℕ
  pub generation_rank : ℕ
  pub absolute_generation_rank : ℕ
  pub source_timestamp : Option Time
  pub instance_handle : InstanceHandle
  pub publication_handle : InstanceHandle
  pub valid_data : Bool

abbrev pub SampleList : Type 0
SampleList = List (Option (List ℕ) × SampleInfo)

pub record IndexedSample : Type 0 where
  pub index : ℕ
  pub data_value : Option (List ℕ)
  pub sample_info : SampleInfo

-- What the reader and the matching use of a PublicationBuiltinTopicData; the ownership strength is
-- the bit pattern of an i32.
pub record PublicationBuiltinTopicData : Type 0 where
  pub key : InstanceHandle
  pub durability : DurabilityQosPolicyKind
  pub deadline : DurationKind
  pub latency_budget : DurationKind
  pub liveliness : LivelinessQosPolicy
  pub reliability : ReliabilityQosPolicy
  pub ownership : OwnershipQosPolicyKind
  pub ownership_strength : ℕ
  pub destination_order : DestinationOrderQosPolicyKind
  pub presentation : PresentationQosPolicy
  pub representation : List ℕ

pub record DataReaderEntity : Type 0 where
  pub instance_handle : InstanceHandle
  pub sample_list : List ReaderSample
  pub qos : DataReaderQos
  pub type_support : TypeSupport
  pub requested_deadline_missed_status : RequestedDeadlineMissedStatus
  pub requested_incompatible_qos_status : RequestedIncompatibleQosStatus
  pub sample_rejected_status : SampleRejectedStatus
  pub subscription_matched_status : SubscriptionMatchedStatus
  pub matched_publication_list : HashMap PublicationBuiltinTopicData
  pub enabled : Bool
  pub data_available_status_changed_flag : Bool
  pub incompatible_writer_list : List InstanceHandle
  pub status_condition : List StatusMail
  pub instances : HashMap InstanceState
  pub instance_deadline_missed_task : HashMap ℕ
  pub aborted_tasks : List ℕ
  pub instance_ownership : HashMap (List ℕ)
