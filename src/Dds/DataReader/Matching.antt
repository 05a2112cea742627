-- ===== src/Dds/DataReader/Matching.antt =====
-- The operations of data_reader.rs on the QoS, on the matched publications and on the statuses.
use dust_dds.Base.{
  ℕ, ◌+◌, ◌%◌, ◌^◌, true, false, Option, List, [], ◌∷◌, ◌++◌, any, length, ◌==◌, if◌then◌else◌,
  i32_next, Outcome, ret, panic,
}
use mathlib.Core.List.{foldl}
use dust_dds.Dds.Errors.{DdsResult, ok, err}
use dust_dds.Dds.Handles.{InstanceHandle, handle_nil, handle_eq, get, insert, remove, keys}
use dust_dds.Dds.Qos.{DataReaderQos, is_consistent, check_immutability}
use dust_dds.Dds.Status.{
  StatusMail, add_communication_state, subscription_matched, SampleRejectedStatusKind,
  SampleRejectedStatus, RequestedDeadlineMissedStatus, SubscriptionMatchedStatus, QosPolicyCount,
  RequestedIncompatibleQosStatus, i32_previous, not_rejected,
}
use dust_dds.Dds.TypeSupport.{TypeSupport}
use dust_dds.Dds.DataReader.{PublicationBuiltinTopicData, DataReaderEntity}

-- The derived defaults.
abbrev pub no_rejection : SampleRejectedStatus
no_rejection = record {
  total_count = 0;
  total_count_change = 0;
  last_reason = not_rejected;
  last_instance_handle = handle_nil;
}

abbrev pub no_match : SubscriptionMatchedStatus
no_match = record {
  total_count = 0;
  total_count_change = 0;
  last_publication_handle = handle_nil;
  current_count = 0;
  current_count_change = 0;
}

unfoldable pub new :
    InstanceHandle → DataReaderQos → TypeSupport → List StatusMail → DataReaderEntity
new instance_handle qos type_support status_condition = record {
  instance_handle = instance_handle;
  sample_list = [];
  qos = qos;
  type_support = type_support;
  requested_deadline_missed_status = record {
    total_count = 0;
    total_count_change = 0;
    last_instance_handle = handle_nil;
  };
  requested_incompatible_qos_status = record {
    total_count = 0;
    total_count_change = 0;
    last_policy_id = 0;
    policies = [];
  };
  sample_rejected_status = no_rejection;
  subscription_matched_status = no_match;
  matched_publication_list = [];
  enabled = false;
  data_available_status_changed_flag = false;
  incompatible_writer_list = [];
  status_condition = status_condition;
  instances = [];
  instance_deadline_missed_task = [];
  aborted_tasks = [];
  instance_ownership = [];
}

abbrev pub enable : DataReaderEntity → DataReaderEntity
enable r = record r { enabled = true }

unfoldable pub set_qos : DataReaderEntity → DataReaderQos → DataReaderEntity × DdsResult (Unit {0})
unfolding is_consistent check_immutability
set_qos r qos = elim (is_consistent qos) [
  | err e ↦ (r, err e)
  | ok _ ↦ elim (if r.enabled then check_immutability r.qos qos else ok tt) [
    | err e ↦ (r, err e)
    | ok _ ↦ (record r { qos = qos }, ok tt)
  ]
]

-- `current_count += len`: the count of a later publication adds to that of the earlier ones.
unfoldable pub add_matched_publication :
    DataReaderEntity → PublicationBuiltinTopicData → DataReaderEntity
unfolding insert
add_matched_publication r publication =
    let matched = insert publication.key publication r.matched_publication_list in
    record r {
      matched_publication_list = matched;
      subscription_matched_status = record r.subscription_matched_status {
        current_count =
            (r.subscription_matched_status.current_count + length matched % 2 ^ 32) % 2 ^ 32;
        current_count_change = i32_next r.subscription_matched_status.current_count_change;
        total_count = i32_next r.subscription_matched_status.total_count;
        total_count_change = i32_next r.subscription_matched_status.total_count_change;
      };
    }

unfoldable pub remove_matched_publication : DataReaderEntity → InstanceHandle → DataReaderEntity
unfolding remove
remove_matched_publication r publication_handle =
    let matched = remove publication_handle r.matched_publication_list in
    record r {
      matched_publication_list = matched;
      subscription_matched_status = record r.subscription_matched_status {
        current_count = length matched % 2 ^ 32;
        current_count_change = i32_previous r.subscription_matched_status.current_count_change;
      };
      status_condition = r.status_condition ++ add_communication_state subscription_matched ∷ [];
    }

unfoldable pub increment_requested_deadline_missed_status :
    DataReaderEntity → InstanceHandle → DataReaderEntity
increment_requested_deadline_missed_status r instance_handle = record r {
  requested_deadline_missed_status = record {
    total_count = i32_next r.requested_deadline_missed_status.total_count;
    total_count_change = i32_next r.requested_deadline_missed_status.total_count_change;
    last_instance_handle = instance_handle;
  };
}

unfoldable pub get_requested_deadline_missed_status :
    DataReaderEntity → DataReaderEntity × RequestedDeadlineMissedStatus
get_requested_deadline_missed_status r = (
  record r {
    requested_deadline_missed_status = record r.requested_deadline_missed_status {
      total_count_change = 0;
    };
  },
  r.requested_deadline_missed_status,
)

unfoldable pub remove_instance_ownership : DataReaderEntity → InstanceHandle → DataReaderEntity
unfolding remove
remove_instance_ownership r instance_handle = record r {
  instance_ownership = remove instance_handle r.instance_ownership;
}

-- The count of a policy, or a new one.
unfoldable pub count_policy : List QosPolicyCount → ℕ → List QosPolicyCount
count_policy [] id = record { policy_id = id; count = 1 } ∷ []
count_policy (p ∷ ps) id =
    if p.policy_id == id then record p { count = i32_next p.count } ∷ ps else p ∷ count_policy ps id

-- `incompatible_qos_policy_list[0]` panics on an empty list.
unfoldable pub add_requested_incompatible_qos :
    DataReaderEntity → InstanceHandle → List ℕ → Outcome DataReaderEntity
unfolding count_policy handle_eq
add_requested_incompatible_qos r handle policies =
    if any (λ h. handle_eq h handle) r.incompatible_writer_list then ret r else elim policies [
      | [] ↦ panic
      | id ∷ ids ↦ ret (record r {
        incompatible_writer_list = r.incompatible_writer_list ++ handle ∷ [];
        requested_incompatible_qos_status = record {
          total_count = i32_next r.requested_incompatible_qos_status.total_count;
          total_count_change = i32_next r.requested_incompatible_qos_status.total_count_change;
          last_policy_id = id;
          policies = foldl count_policy r.requested_incompatible_qos_status.policies (id ∷ ids);
        };
      })
    ]

unfoldable pub get_requested_incompatible_qos_status :
    DataReaderEntity → DataReaderEntity × RequestedIncompatibleQosStatus
get_requested_incompatible_qos_status r = (
  record r {
    requested_incompatible_qos_status = record r.requested_incompatible_qos_status {
      total_count_change = 0;
    };
  },
  r.requested_incompatible_qos_status,
)

unfoldable pub increment_sample_rejected_status :
    DataReaderEntity → InstanceHandle → SampleRejectedStatusKind → DataReaderEntity
increment_sample_rejected_status r sample_handle reason = record r {
  sample_rejected_status = record {
    last_instance_handle = sample_handle;
    last_reason = reason;
    total_count = i32_next r.sample_rejected_status.total_count;
    total_count_change = i32_next r.sample_rejected_status.total_count_change;
  };
}

unfoldable pub get_sample_rejected_status :
    DataReaderEntity → DataReaderEntity × SampleRejectedStatus
get_sample_rejected_status r = (
  record r { sample_rejected_status = record r.sample_rejected_status { total_count_change = 0 } },
  r.sample_rejected_status,
)

unfoldable pub get_subscription_matched_status :
    DataReaderEntity → DataReaderEntity × SubscriptionMatchedStatus
get_subscription_matched_status r = (
  record r {
    subscription_matched_status = record r.subscription_matched_status {
      total_count_change = 0;
      current_count_change = 0;
    };
  },
  r.subscription_matched_status,
)

unfoldable pub get_matched_publication_data :
    DataReaderEntity → InstanceHandle → Option PublicationBuiltinTopicData
unfolding get
get_matched_publication_data r handle = get handle r.matched_publication_list

unfoldable pub get_matched_publications : DataReaderEntity → List InstanceHandle
unfolding keys
get_matched_publications r = keys r.matched_publication_list

unfoldable pub insert_instance_deadline_missed_task :
    DataReaderEntity → InstanceHandle → ℕ → DataReaderEntity
unfolding insert
insert_instance_deadline_missed_task r instance_handle task = record r {
  instance_deadline_missed_task = insert instance_handle task r.instance_deadline_missed_task;
}
