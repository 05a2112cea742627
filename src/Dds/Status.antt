-- ===== src/Dds/Status.antt =====
-- dds/src/dds/infrastructure/status.rs, and the mails to a status condition
-- (dds/src/implementation/status_condition/status_condition_actor.rs): the actor behind the address
-- is the list of the mails that it was sent, oldest first. A count is the bit pattern of an i32 and
-- wraps.
use dust_dds.Base.{ℕ, ◌+◌, ◌-◌, ◌%◌, ◌^◌, List}
use dust_dds.Dds.Handles.{InstanceHandle}

pub data StatusKind : Type 0 where
  inconsistent_topic offered_deadline_missed requested_deadline_missed : StatusKind
  offered_incompatible_qos requested_incompatible_qos sample_lost sample_rejected : StatusKind
  data_on_readers data_available liveliness_lost liveliness_changed : StatusKind
  publication_matched subscription_matched : StatusKind

pub data StatusMail : Type 0 where
  add_communication_state remove_communication_state : StatusKind → StatusMail

pub data SampleRejectedStatusKind : Type 0 where
  not_rejected rejected_by_instances_limit rejected_by_samples_limit : SampleRejectedStatusKind
  rejected_by_samples_per_instance_limit : SampleRejectedStatusKind

pub record SampleRejectedStatus : Type 0 where
  pub total_count : ℕ
  pub total_count_change : ℕ
  pub last_reason : SampleRejectedStatusKind
  pub last_instance_handle : InstanceHandle

pub record RequestedDeadlineMissedStatus : Type 0 where
  pub total_count : ℕ
  pub total_count_change : ℕ
  pub last_instance_handle : InstanceHandle

pub record SubscriptionMatchedStatus : Type 0 where
  pub total_count : ℕ
  pub total_count_change : ℕ
  pub last_publication_handle : InstanceHandle
  pub current_count : ℕ
  pub current_count_change : ℕ

pub record QosPolicyCount : Type 0 where
  pub policy_id : ℕ
  pub count : ℕ

pub record RequestedIncompatibleQosStatus : Type 0 where
  pub total_count : ℕ
  pub total_count_change : ℕ
  pub last_policy_id : ℕ
  pub policies : List QosPolicyCount

pub record OfferedDeadlineMissedStatus : Type 0 where
  pub total_count : ℕ
  pub total_count_change : ℕ
  pub last_instance_handle : InstanceHandle

pub record OfferedIncompatibleQosStatus : Type 0 where
  pub total_count : ℕ
  pub total_count_change : ℕ
  pub last_policy_id : ℕ
  pub policies : List QosPolicyCount

pub record PublicationMatchedStatus : Type 0 where
  pub total_count : ℕ
  pub total_count_change : ℕ
  pub last_subscription_handle : InstanceHandle
  pub current_count : ℕ
  pub current_count_change : ℕ

-- `- 1` on an i32.
abbrev pub i32_previous : ℕ → ℕ
i32_previous a = (a + 2 ^ 32 - 1) % 2 ^ 32
