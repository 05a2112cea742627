-- ===== src/Dds/Qos/Orders.antt =====
-- The `PartialOrd` of the policies (dds/src/dds/infrastructure/{qos_policy,time}.rs). All these
-- orders are total, so that `partial_cmp` is its result without the `Some`.
use dust_dds.Base.{◌≡◌, refl, arith, Bool, true, false, ltb, i32_lt, if◌then◌else◌}
use dust_dds.Dds.Time.{Duration, DurationKind, finite, infinite}
use dust_dds.Dds.Qos.{
  DurabilityQosPolicyKind, volatile, transient_local, transient, persistent,
  PresentationQosPolicyAccessScopeKind, instance_scope, topic_scope, LivelinessQosPolicyKind,
  LivelinessQosPolicy, automatic, manual_by_participant, manual_by_topic, ReliabilityQosPolicyKind,
  best_effort, reliable, DestinationOrderQosPolicyKind, by_reception_timestamp, by_source_timestamp,
}

pub data Ordering : Type 0 where
  less equal greater : Ordering

-- `a < b` and `a > b`, from `a.partial_cmp(b)`.
abbrev pub is_less : Ordering → Bool
is_less less = true
is_less equal = false
is_less greater = false

abbrev pub is_greater : Ordering → Bool
is_greater less = false
is_greater equal = false
is_greater greater = true

unfoldable pub durability_cmp : DurabilityQosPolicyKind → DurabilityQosPolicyKind → Ordering
durability_cmp volatile volatile = equal
durability_cmp volatile transient_local = less
durability_cmp volatile transient = less
durability_cmp volatile persistent = less
durability_cmp transient_local volatile = greater
durability_cmp transient_local transient_local = equal
durability_cmp transient_local transient = less
durability_cmp transient_local persistent = less
durability_cmp transient volatile = greater
durability_cmp transient transient_local = greater
durability_cmp transient transient = equal
durability_cmp transient persistent = less
durability_cmp persistent volatile = greater
durability_cmp persistent transient_local = greater
durability_cmp persistent transient = greater
durability_cmp persistent persistent = equal

unfoldable pub access_scope_cmp :
    PresentationQosPolicyAccessScopeKind → PresentationQosPolicyAccessScopeKind → Ordering
access_scope_cmp instance_scope instance_scope = equal
access_scope_cmp instance_scope topic_scope = less
access_scope_cmp topic_scope instance_scope = greater
access_scope_cmp topic_scope topic_scope = equal

unfoldable pub liveliness_kind_cmp : LivelinessQosPolicyKind → LivelinessQosPolicyKind → Ordering
liveliness_kind_cmp automatic automatic = equal
liveliness_kind_cmp automatic manual_by_participant = less
liveliness_kind_cmp automatic manual_by_topic = less
liveliness_kind_cmp manual_by_participant automatic = greater
liveliness_kind_cmp manual_by_participant manual_by_participant = equal
liveliness_kind_cmp manual_by_participant manual_by_topic = less
liveliness_kind_cmp manual_by_topic automatic = greater
liveliness_kind_cmp manual_by_topic manual_by_participant = greater
liveliness_kind_cmp manual_by_topic manual_by_topic = equal

unfoldable pub reliability_cmp : ReliabilityQosPolicyKind → ReliabilityQosPolicyKind → Ordering
reliability_cmp best_effort best_effort = equal
reliability_cmp best_effort reliable = less
reliability_cmp reliable best_effort = greater
reliability_cmp reliable reliable = equal

unfoldable pub destination_order_cmp :
    DestinationOrderQosPolicyKind → DestinationOrderQosPolicyKind → Ordering
destination_order_cmp by_reception_timestamp by_reception_timestamp = equal
destination_order_cmp by_reception_timestamp by_source_timestamp = less
destination_order_cmp by_source_timestamp by_reception_timestamp = greater
destination_order_cmp by_source_timestamp by_source_timestamp = equal

-- The derived order of a Duration: the seconds, an i32, then the nanoseconds.
unfoldable pub duration_cmp : Duration → Duration → Ordering
duration_cmp a b =
    if i32_lt a.sec b.sec
    then less
    else if i32_lt b.sec a.sec
    then greater
    else if ltb a.nanosec b.nanosec
    then less
    else if ltb b.nanosec a.nanosec
    then greater
    else equal

unfoldable pub duration_kind_cmp : DurationKind → DurationKind → Ordering
unfolding duration_cmp
duration_kind_cmp (finite a) (finite b) = duration_cmp a b
duration_kind_cmp (finite a) infinite = less
duration_kind_cmp infinite (finite b) = greater
duration_kind_cmp infinite infinite = equal

-- The derived order of two fields.
abbrev pub then_cmp : Ordering → Ordering → Ordering
then_cmp less o = less
then_cmp equal o = o
then_cmp greater o = greater

unfoldable pub liveliness_cmp : LivelinessQosPolicy → LivelinessQosPolicy → Ordering
unfolding liveliness_kind_cmp duration_kind_cmp
liveliness_cmp a b =
    then_cmp (liveliness_kind_cmp a.kind b.kind)
      (duration_kind_cmp a.lease_duration b.lease_duration)

-- The orders are those of the converse arguments, reversed.
abbrev pub reversed : Ordering → Ordering
reversed less = greater
reversed equal = equal
reversed greater = less

pub is_greater-reversed : (o : Ordering) → is_greater (reversed o) ≡ is_less o
is_greater-reversed less = refl
is_greater-reversed equal = refl
is_greater-reversed greater = refl

pub is_less-reversed : (o : Ordering) → is_less (reversed o) ≡ is_greater o
is_less-reversed less = refl
is_less-reversed equal = refl
is_less-reversed greater = refl

pub durability_cmp-reversed :
    (a b : DurabilityQosPolicyKind) → durability_cmp b a ≡ reversed (durability_cmp a b)
unfolding durability_cmp
durability_cmp-reversed volatile volatile = refl
durability_cmp-reversed volatile transient_local = refl
durability_cmp-reversed volatile transient = refl
durability_cmp-reversed volatile persistent = refl
durability_cmp-reversed transient_local volatile = refl
durability_cmp-reversed transient_local transient_local = refl
durability_cmp-reversed transient_local transient = refl
durability_cmp-reversed transient_local persistent = refl
durability_cmp-reversed transient volatile = refl
durability_cmp-reversed transient transient_local = refl
durability_cmp-reversed transient transient = refl
durability_cmp-reversed transient persistent = refl
durability_cmp-reversed persistent volatile = refl
durability_cmp-reversed persistent transient_local = refl
durability_cmp-reversed persistent transient = refl
durability_cmp-reversed persistent persistent = refl

pub access_scope_cmp-reversed :
    (a b : PresentationQosPolicyAccessScopeKind)
    → access_scope_cmp b a ≡ reversed (access_scope_cmp a b)
unfolding access_scope_cmp
access_scope_cmp-reversed instance_scope instance_scope = refl
access_scope_cmp-reversed instance_scope topic_scope = refl
access_scope_cmp-reversed topic_scope instance_scope = refl
access_scope_cmp-reversed topic_scope topic_scope = refl

pub liveliness_kind_cmp-reversed :
    (a b : LivelinessQosPolicyKind) → liveliness_kind_cmp b a ≡ reversed (liveliness_kind_cmp a b)
unfolding liveliness_kind_cmp
liveliness_kind_cmp-reversed automatic automatic = refl
liveliness_kind_cmp-reversed automatic manual_by_participant = refl
liveliness_kind_cmp-reversed automatic manual_by_topic = refl
liveliness_kind_cmp-reversed manual_by_participant automatic = refl
liveliness_kind_cmp-reversed manual_by_participant manual_by_participant = refl
liveliness_kind_cmp-reversed manual_by_participant manual_by_topic = refl
liveliness_kind_cmp-reversed manual_by_topic automatic = refl
liveliness_kind_cmp-reversed manual_by_topic manual_by_participant = refl
liveliness_kind_cmp-reversed manual_by_topic manual_by_topic = refl

pub reliability_cmp-reversed :
    (a b : ReliabilityQosPolicyKind) → reliability_cmp b a ≡ reversed (reliability_cmp a b)
unfolding reliability_cmp
reliability_cmp-reversed best_effort best_effort = refl
reliability_cmp-reversed best_effort reliable = refl
reliability_cmp-reversed reliable best_effort = refl
reliability_cmp-reversed reliable reliable = refl

pub destination_order_cmp-reversed :
    (a b : DestinationOrderQosPolicyKind)
    → destination_order_cmp b a ≡ reversed (destination_order_cmp a b)
unfolding destination_order_cmp
destination_order_cmp-reversed by_reception_timestamp by_reception_timestamp = refl
destination_order_cmp-reversed by_reception_timestamp by_source_timestamp = refl
destination_order_cmp-reversed by_source_timestamp by_reception_timestamp = refl
destination_order_cmp-reversed by_source_timestamp by_source_timestamp = refl

duration_cmp-reversed : (a b : Duration) → duration_cmp b a ≡ reversed (duration_cmp a b)
unfolding duration_cmp
duration_cmp-reversed a b = ground arith

pub duration_kind_cmp-reversed :
    (a b : DurationKind) → duration_kind_cmp b a ≡ reversed (duration_kind_cmp a b)
unfolding duration_kind_cmp
duration_kind_cmp-reversed (finite a) (finite b) = duration_cmp-reversed a b
duration_kind_cmp-reversed (finite a) infinite = refl
duration_kind_cmp-reversed infinite (finite b) = refl
duration_kind_cmp-reversed infinite infinite = refl

reversed-then_cmp : (o p : Ordering) → then_cmp (reversed o) (reversed p) ≡ reversed (then_cmp o p)
reversed-then_cmp less p = refl
reversed-then_cmp equal p = refl
reversed-then_cmp greater p = refl

pub liveliness_cmp-reversed :
    (a b : LivelinessQosPolicy) → liveliness_cmp b a ≡ reversed (liveliness_cmp a b)
unfolding liveliness_cmp
liveliness_cmp-reversed a b =
    rw
      (
        liveliness_kind_cmp-reversed a.kind b.kind,
        duration_kind_cmp-reversed a.lease_duration b.lease_duration,
      )
      (reversed-then_cmp (liveliness_kind_cmp a.kind b.kind)
        (duration_kind_cmp a.lease_duration b.lease_duration))
