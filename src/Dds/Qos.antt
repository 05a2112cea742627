-- ===== src/Dds/Qos.antt =====
-- dds/src/dds/infrastructure/{qos,qos_policy}.rs: the QoS of readers and writers. A policy with one
-- field is that field. The policies that no modelled operation reads (user data, the lifecycles,
-- the partitions) are left out.
pub mod Orders
pub mod Ranks
use native.Mathlib.Decide.{ℕ_discrete}
use dust_dds.Base.{ℕ, Bool, true, false, not, ◌||◌, ltb, ◌==◌, List, length, if◌then◌else◌}
use dust_dds.Transport.Types.{truth}
use dust_dds.Dds.Errors.{DdsResult, ok, err, immutable_policy, inconsistent_policy}
use dust_dds.Dds.Time.{DurationKind, DurationKind-discrete, duration_kind_lt}

pub data Length : Type 0 where
  unlimited : Length
  limited : ℕ → Length

-- `PartialOrd for Length`, `PartialEq<Length> for usize` and `PartialOrd<Length> for usize`.
unfoldable pub length_lt : Length → Length → Bool
length_lt unlimited l = false
length_lt (limited a) unlimited = true
length_lt (limited a) (limited b) = ltb a b

unfoldable pub usize_eq_length : ℕ → Length → Bool
usize_eq_length n unlimited = false
usize_eq_length n (limited a) = a == n

unfoldable pub usize_lt_length : ℕ → Length → Bool
usize_lt_length n unlimited = true
usize_lt_length n (limited a) = ltb n a

unfoldable pub usize_gt_length : ℕ → Length → Bool
usize_gt_length n unlimited = false
usize_gt_length n (limited a) = ltb a n

pub data HistoryQosPolicyKind : Type 0 where
  keep_last : ℕ → HistoryQosPolicyKind
  keep_all : HistoryQosPolicyKind

pub record ResourceLimitsQosPolicy : Type 0 where
  pub max_samples : Length
  pub max_instances : Length
  pub max_samples_per_instance : Length

pub data DestinationOrderQosPolicyKind : Type 0 where
  by_reception_timestamp by_source_timestamp : DestinationOrderQosPolicyKind

pub data OwnershipQosPolicyKind : Type 0 where
  shared exclusive : OwnershipQosPolicyKind

pub data ReliabilityQosPolicyKind : Type 0 where
  best_effort reliable : ReliabilityQosPolicyKind

pub record ReliabilityQosPolicy : Type 0 where
  pub kind : ReliabilityQosPolicyKind
  pub max_blocking_time : DurationKind

pub data DurabilityQosPolicyKind : Type 0 where
  volatile transient_local transient persistent : DurabilityQosPolicyKind

pub data LivelinessQosPolicyKind : Type 0 where
  automatic manual_by_participant manual_by_topic : LivelinessQosPolicyKind

pub record LivelinessQosPolicy : Type 0 where
  pub kind : LivelinessQosPolicyKind
  pub lease_duration : DurationKind

pub data PresentationQosPolicyAccessScopeKind : Type 0 where
  instance_scope topic_scope : PresentationQosPolicyAccessScopeKind

pub record PresentationQosPolicy : Type 0 where
  pub access_scope : PresentationQosPolicyAccessScopeKind
  pub coherent_access : Bool
  pub ordered_access : Bool

-- Of the QoS of publishers and subscribers, the part that the matching of their entities reads.
pub record PublisherQos : Type 0 where
  pub presentation : PresentationQosPolicy

pub record SubscriberQos : Type 0 where
  pub presentation : PresentationQosPolicy

pub record DataReaderQos : Type 0 where
  pub durability : DurabilityQosPolicyKind
  pub deadline : DurationKind
  pub latency_budget : DurationKind
  pub liveliness : LivelinessQosPolicy
  pub reliability : ReliabilityQosPolicy
  pub destination_order : DestinationOrderQosPolicyKind
  pub history : HistoryQosPolicyKind
  pub resource_limits : ResourceLimitsQosPolicy
  pub ownership : OwnershipQosPolicyKind
  pub time_based_filter : DurationKind
  pub representation : List ℕ

pub record DataWriterQos : Type 0 where
  pub durability : DurabilityQosPolicyKind
  pub deadline : DurationKind
  pub latency_budget : DurationKind
  pub liveliness : LivelinessQosPolicy
  pub reliability : ReliabilityQosPolicy
  pub destination_order : DestinationOrderQosPolicyKind
  pub history : HistoryQosPolicyKind
  pub resource_limits : ResourceLimitsQosPolicy
  pub ownership : OwnershipQosPolicyKind
  pub ownership_strength : ℕ
  pub representation : List ℕ

unfoldable pub history_is_inconsistent : HistoryQosPolicyKind → ResourceLimitsQosPolicy → Bool
unfolding usize_gt_length
history_is_inconsistent (keep_last depth) limits =
    usize_gt_length depth limits.max_samples_per_instance
history_is_inconsistent keep_all limits = false

unfoldable pub is_consistent : DataReaderQos → DdsResult (Unit {0})
unfolding length_lt history_is_inconsistent
is_consistent q =
    if length_lt q.resource_limits.max_samples q.resource_limits.max_samples_per_instance
    then err inconsistent_policy
    else if history_is_inconsistent q.history q.resource_limits
    then err inconsistent_policy
    else if duration_kind_lt q.deadline q.time_based_filter
    then err inconsistent_policy
    else ok tt

-- The derived `==` of the policies that must not change on an enabled entity.
unfoldable pub Durability-discrete : Discrete DurabilityQosPolicyKind
Durability-discrete = hlevel

unfoldable pub Liveliness-discrete : Discrete LivelinessQosPolicy
unfolding DurationKind-discrete
Liveliness-discrete = hlevel DurationKind-discrete

unfoldable pub Reliability-discrete : Discrete ReliabilityQosPolicy
unfolding DurationKind-discrete
Reliability-discrete = hlevel DurationKind-discrete

unfoldable pub DestinationOrder-discrete : Discrete DestinationOrderQosPolicyKind
DestinationOrder-discrete = hlevel

unfoldable pub History-discrete : Discrete HistoryQosPolicyKind
unfolding ℕ_discrete
History-discrete = hlevel ℕ_discrete

unfoldable pub ResourceLimits-discrete : Discrete ResourceLimitsQosPolicy
unfolding ℕ_discrete
ResourceLimits-discrete = hlevel ℕ_discrete

unfoldable pub Ownership-discrete : Discrete OwnershipQosPolicyKind
Ownership-discrete = hlevel

unfoldable pub check_immutability : DataReaderQos → DataReaderQos → DdsResult (Unit {0})
unfolding Durability-discrete Liveliness-discrete Reliability-discrete DestinationOrder-discrete
    History-discrete ResourceLimits-discrete Ownership-discrete
check_immutability q other =
    if not (truth (Durability-discrete q.durability other.durability))
      || not (truth (Liveliness-discrete q.liveliness other.liveliness))
      || not (truth (Reliability-discrete q.reliability other.reliability))
      || not (truth (DestinationOrder-discrete q.destination_order other.destination_order))
      || not (truth (History-discrete q.history other.history))
      || not (truth (ResourceLimits-discrete q.resource_limits other.resource_limits))
      || not (truth (Ownership-discrete q.ownership other.ownership))
    then err immutable_policy
    else ok tt

unfoldable pub writer_is_consistent : DataWriterQos → DdsResult (Unit {0})
unfolding length_lt history_is_inconsistent
writer_is_consistent q =
    if ltb 1 (length q.representation)
    then err inconsistent_policy
    else if length_lt q.resource_limits.max_samples q.resource_limits.max_samples_per_instance
    then err inconsistent_policy
    else if history_is_inconsistent q.history q.resource_limits
    then err inconsistent_policy
    else ok tt

unfoldable pub check_writer_immutability : DataWriterQos → DataWriterQos → DdsResult (Unit {0})
unfolding Durability-discrete Liveliness-discrete Reliability-discrete DestinationOrder-discrete
    History-discrete ResourceLimits-discrete Ownership-discrete
check_writer_immutability q other =
    if not (truth (Durability-discrete q.durability other.durability))
      || not (truth (Liveliness-discrete q.liveliness other.liveliness))
      || not (truth (Reliability-discrete q.reliability other.reliability))
      || not (truth (DestinationOrder-discrete q.destination_order other.destination_order))
      || not (truth (History-discrete q.history other.history))
      || not (truth (ResourceLimits-discrete q.resource_limits other.resource_limits))
      || not (truth (Ownership-discrete q.ownership other.ownership))
    then err immutable_policy
    else ok tt
