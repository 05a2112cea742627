-- ===== src/Dds/DataWriter/Matching.antt =====
-- The operations of data_writer.rs on the QoS, on the matched subscriptions and on the statuses.
use dust_dds.Base.{
  ℕ, ◌%◌, ◌^◌, Bool, true, false, Option, none, List, [], ◌∷◌, ◌++◌, any, length, if◌then◌else◌,
  i32_next, Outcome, ret, panic,
}
use mathlib.Core.List.{foldl}
use dust_dds.Transport.Types.{SequenceNumber}
use dust_dds.Dds.Errors.{DdsResult, ok, err}
use dust_dds.Dds.Handles.{InstanceHandle, handle_nil, handle_eq, get, insert, remove, keys}
use dust_dds.Dds.Qos.{DataWriterQos, writer_is_consistent, check_writer_immutability}
use dust_dds.Dds.Status.{
  StatusMail, remove_communication_state, offered_deadline_missed, OfferedDeadlineMissedStatus,
  OfferedIncompatibleQosStatus, PublicationMatchedStatus, i32_previous,
}
use dust_dds.Dds.TypeSupport.{TypeSupport}
use dust_dds.Dds.DataReader.Matching.{count_policy}
use dust_dds.Dds.DataWriter.{
  remove_change, TransportWriter, SubscriptionBuiltinTopicData, DataWriterEntity,
}
use dust_dds.Dds.DataWriter.Writing.{Waiting, call_history, is_registered}

unfoldable pub new :
    InstanceHandle
    → TransportWriter
    → TypeSupport
    → List StatusMail
    → DataWriterQos
    → DataWriterEntity
new instance_handle transport_writer type_support status_condition qos = record {
  instance_handle = instance_handle;
  transport_writer = transport_writer;
  type_support = type_support;
  matched_subscription_list = [];
  publication_matched_status = record {
    total_count = 0;
    total_count_change = 0;
    last_subscription_handle = handle_nil;
    current_count = 0;
    current_count_change = 0;
  };
  incompatible_subscription_list = [];
  offered_incompatible_qos_status = record {
    total_count = 0;
    total_count_change = 0;
    last_policy_id = 0;
    policies = [];
  };
  enabled = false;
  status_condition = status_condition;
  max_seq_num = none;
  last_change_sequence_number = 0;
  qos = qos;
  registered_instance_list = [];
  offered_deadline_missed_status = record {
    total_count = 0;
    total_count_change = 0;
    last_instance_handle = handle_nil;
  };
  instance_deadline_missed_task = [];
  aborted_tasks = [];
  instance_samples = [];
}

abbrev pub enable : DataWriterEntity → DataWriterEntity
enable w = record w { enabled = true }

unfoldable pub set_qos : DataWriterEntity → DataWriterQos → DataWriterEntity × DdsResult (Unit {0})
unfolding writer_is_consistent check_writer_immutability
set_qos w qos = elim (writer_is_consistent qos) [
  | err e ↦ (w, err e)
  | ok _ ↦ elim (if w.enabled then check_writer_immutability w.qos qos else ok tt) [
    | err e ↦ (w, err e)
    | ok _ ↦ (record w { qos = qos }, ok tt)
  ]
]

abbrev pub contains_instance : DataWriterEntity → InstanceHandle → Bool
contains_instance w handle = is_registered handle w

-- The samples of the instance keep the number.
abbrev pub remove_written_change : DataWriterEntity → SequenceNumber → DataWriterEntity
remove_written_change w sequence_number = call_history (remove_change sequence_number) w

unfoldable pub add_matched_subscription :
    DataWriterEntity → SubscriptionBuiltinTopicData → DataWriterEntity
unfolding insert
add_matched_subscription w subscription =
    let matched = insert subscription.key subscription w.matched_subscription_list in
    record w {
      matched_subscription_list = matched;
      publication_matched_status = record w.publication_matched_status {
        current_count = length matched % 2 ^ 32;
        current_count_change = i32_next w.publication_matched_status.current_count_change;
        total_count = i32_next w.publication_matched_status.total_count;
        total_count_change = i32_next w.publication_matched_status.total_count_change;
      };
    }

unfoldable pub remove_matched_subscription : DataWriterEntity → InstanceHandle → DataWriterEntity
unfolding remove
remove_matched_subscription w subscription_handle =
    let matched = remove subscription_handle w.matched_subscription_list in
    record w {
      matched_subscription_list = matched;
      publication_matched_status = record w.publication_matched_status {
        current_count = length matched % 2 ^ 32;
        current_count_change = i32_previous w.publication_matched_status.current_count_change;
      };
    }

-- `incompatible_qos_policy_list[0]` panics on an empty list.
unfoldable pub add_incompatible_subscription :
    DataWriterEntity → InstanceHandle → List ℕ → Outcome DataWriterEntity
unfolding count_policy handle_eq
add_incompatible_subscription w handle policies =
    if any (λ h. handle_eq h handle) w.incompatible_subscription_list
    then ret w
    else elim policies [
      | [] ↦ panic
      | id ∷ ids ↦ ret (record w {
        incompatible_subscription_list = w.incompatible_subscription_list ++ handle ∷ [];
        offered_incompatible_qos_status = record {
          total_count = i32_next w.offered_incompatible_qos_status.total_count;
          total_count_change = i32_next w.offered_incompatible_qos_status.total_count_change;
          last_policy_id = id;
          policies = foldl count_policy w.offered_incompatible_qos_status.policies (id ∷ ids);
        };
      })
    ]

unfoldable pub get_offered_incompatible_qos_status :
    DataWriterEntity → DataWriterEntity × OfferedIncompatibleQosStatus
get_offered_incompatible_qos_status w = (
  record w {
    offered_incompatible_qos_status = record w.offered_incompatible_qos_status {
      total_count_change = 0;
    };
  },
  w.offered_incompatible_qos_status,
)

unfoldable pub get_matched_subscriptions : DataWriterEntity → List InstanceHandle
unfolding keys
get_matched_subscriptions w = keys w.matched_subscription_list

unfoldable pub get_matched_subscription_data :
    DataWriterEntity → InstanceHandle → Option SubscriptionBuiltinTopicData
unfolding get
get_matched_subscription_data w subscription_handle =
    get subscription_handle w.matched_subscription_list

unfoldable pub get_offered_deadline_missed_status :
    DataWriterEntity → DataWriterEntity × OfferedDeadlineMissedStatus
get_offered_deadline_missed_status w = (
  record w {
    offered_deadline_missed_status = record w.offered_deadline_missed_status {
      total_count_change = 0;
    };
    status_condition =
        w.status_condition ++ remove_communication_state offered_deadline_missed ∷ [];
  },
  w.offered_deadline_missed_status,
)

unfoldable pub get_publication_matched_status :
    DataWriterEntity → DataWriterEntity × PublicationMatchedStatus
get_publication_matched_status w = (
  record w {
    publication_matched_status = record w.publication_matched_status {
      current_count_change = 0;
      total_count_change = 0;
    };
  },
  w.publication_matched_status,
)

unfoldable pub increment_offered_deadline_missed_status :
    DataWriterEntity → InstanceHandle → DataWriterEntity
increment_offered_deadline_missed_status w instance_handle = record w {
  offered_deadline_missed_status = record {
    last_instance_handle = instance_handle;
    total_count = i32_next w.offered_deadline_missed_status.total_count;
    total_count_change = i32_next w.offered_deadline_missed_status.total_count_change;
  };
}

unfoldable pub insert_instance_deadline_missed_task :
    DataWriterEntity → InstanceHandle → ℕ → DataWriterEntity
unfolding insert
insert_instance_deadline_missed_task w instance_handle task = record w {
  instance_deadline_missed_task = insert instance_handle task w.instance_deadline_missed_task;
}

-- The transport's answer is that of the first round of a wait.
abbrev pub are_all_changes_acknowledged : DataWriterEntity → Waiting → Bool
are_all_changes_acknowledged w waiting =
    if w.transport_writer.is_stateful
    then waiting.is_change_acknowledged 0 w.last_change_sequence_number
    else true
