-- ===== src/Dds/Qos/Ranks.antt =====
-- The orders of the policies by ranks: from the lowest value, 0, upwards.
use dust_dds.Base.{ℕ, ◌≤◌, ◌<◌, ◌≡◌, refl, sym, arith, ◌↔◌, ◌⊎◌, true, false, ltb, if◌then◌else◌}
use dust_dds.Dds.Time.{
  Duration, DurationKind, finite, infinite, duration_le, duration_kind_le, pair_le,
}
use dust_dds.Dds.Qos.{
  DurabilityQosPolicyKind, volatile, transient_local, transient, persistent,
  PresentationQosPolicyAccessScopeKind, instance_scope, topic_scope, LivelinessQosPolicyKind,
  LivelinessQosPolicy, automatic, manual_by_participant, manual_by_topic, ReliabilityQosPolicyKind,
  best_effort, reliable, DestinationOrderQosPolicyKind, by_reception_timestamp, by_source_timestamp,
}
use dust_dds.Dds.Qos.Orders.{
  Ordering, less, equal, greater, is_less, is_greater, then_cmp, durability_cmp, access_scope_cmp,
  liveliness_kind_cmp, reliability_cmp, destination_order_cmp, duration_cmp, duration_kind_cmp,
  liveliness_cmp, is_less-reversed, duration_kind_cmp-reversed,
}

-- The order of two ranks.
abbrev rank_cmp : ℕ → ℕ → Ordering
rank_cmp a b = if ltb a b then less else if ltb b a then greater else equal

is_less-rank_cmp : (a b : ℕ) → (is_less (rank_cmp a b) ≡ false) ↔ (b ≤ a)
is_less-rank_cmp a b = ground arith

abbrev pub durability_rank : DurabilityQosPolicyKind → ℕ
durability_rank volatile = 0
durability_rank transient_local = 1
durability_rank transient = 2
durability_rank persistent = 3

durability_cmp-ranks :
    (a b : DurabilityQosPolicyKind)
    → durability_cmp a b ≡ rank_cmp (durability_rank a) (durability_rank b)
unfolding durability_cmp
durability_cmp-ranks volatile volatile = refl
durability_cmp-ranks volatile transient_local = refl
durability_cmp-ranks volatile transient = refl
durability_cmp-ranks volatile persistent = refl
durability_cmp-ranks transient_local volatile = refl
durability_cmp-ranks transient_local transient_local = refl
durability_cmp-ranks transient_local transient = refl
durability_cmp-ranks transient_local persistent = refl
durability_cmp-ranks transient volatile = refl
durability_cmp-ranks transient transient_local = refl
durability_cmp-ranks transient transient = refl
durability_cmp-ranks transient persistent = refl
durability_cmp-ranks persistent volatile = refl
durability_cmp-ranks persistent transient_local = refl
durability_cmp-ranks persistent transient = refl
durability_cmp-ranks persistent persistent = refl

pub is_less-durability_cmp :
    (a b : DurabilityQosPolicyKind)
    → (is_less (durability_cmp a b) ≡ false) ↔ (durability_rank b ≤ durability_rank a)
is_less-durability_cmp a b =
    rw (durability_cmp-ranks a b) (is_less-rank_cmp (durability_rank a) (durability_rank b))

abbrev pub access_scope_rank : PresentationQosPolicyAccessScopeKind → ℕ
access_scope_rank instance_scope = 0
access_scope_rank topic_scope = 1

access_scope_cmp-ranks :
    (a b : PresentationQosPolicyAccessScopeKind)
    → access_scope_cmp a b ≡ rank_cmp (access_scope_rank a) (access_scope_rank b)
unfolding access_scope_cmp
access_scope_cmp-ranks instance_scope instance_scope = refl
access_scope_cmp-ranks instance_scope topic_scope = refl
access_scope_cmp-ranks topic_scope instance_scope = refl
access_scope_cmp-ranks topic_scope topic_scope = refl

pub is_less-access_scope_cmp :
    (a b : PresentationQosPolicyAccessScopeKind)
    → (is_less (access_scope_cmp a b) ≡ false) ↔ (access_scope_rank b ≤ access_scope_rank a)
is_less-access_scope_cmp a b =
    rw (access_scope_cmp-ranks a b) (is_less-rank_cmp (access_scope_rank a) (access_scope_rank b))

abbrev pub liveliness_rank : LivelinessQosPolicyKind → ℕ
liveliness_rank automatic = 0
liveliness_rank manual_by_participant = 1
liveliness_rank manual_by_topic = 2

liveliness_kind_cmp-ranks :
    (a b : LivelinessQosPolicyKind)
    → liveliness_kind_cmp a b ≡ rank_cmp (liveliness_rank a) (liveliness_rank b)
unfolding liveliness_kind_cmp
liveliness_kind_cmp-ranks automatic automatic = refl
liveliness_kind_cmp-ranks automatic manual_by_participant = refl
liveliness_kind_cmp-ranks automatic manual_by_topic = refl
liveliness_kind_cmp-ranks manual_by_participant automatic = refl
liveliness_kind_cmp-ranks manual_by_participant manual_by_participant = refl
liveliness_kind_cmp-ranks manual_by_participant manual_by_topic = refl
liveliness_kind_cmp-ranks manual_by_topic automatic = refl
liveliness_kind_cmp-ranks manual_by_topic manual_by_participant = refl
liveliness_kind_cmp-ranks manual_by_topic manual_by_topic = refl

abbrev pub reliability_rank : ReliabilityQosPolicyKind → ℕ
reliability_rank best_effort = 0
reliability_rank reliable = 1

reliability_cmp-ranks :
    (a b : ReliabilityQosPolicyKind)
    → reliability_cmp a b ≡ rank_cmp (reliability_rank a) (reliability_rank b)
unfolding reliability_cmp
reliability_cmp-ranks best_effort best_effort = refl
reliability_cmp-ranks best_effort reliable = refl
reliability_cmp-ranks reliable best_effort = refl
reliability_cmp-ranks reliable reliable = refl

pub is_less-reliability_cmp :
    (a b : ReliabilityQosPolicyKind)
    → (is_less (reliability_cmp a b) ≡ false) ↔ (reliability_rank b ≤ reliability_rank a)
is_less-reliability_cmp a b =
    rw (reliability_cmp-ranks a b) (is_less-rank_cmp (reliability_rank a) (reliability_rank b))

abbrev pub destination_order_rank : DestinationOrderQosPolicyKind → ℕ
destination_order_rank by_reception_timestamp = 0
destination_order_rank by_source_timestamp = 1

destination_order_cmp-ranks :
    (a b : DestinationOrderQosPolicyKind)
    → destination_order_cmp a b ≡ rank_cmp (destination_order_rank a) (destination_order_rank b)
unfolding destination_order_cmp
destination_order_cmp-ranks by_reception_timestamp by_reception_timestamp = refl
destination_order_cmp-ranks by_reception_timestamp by_source_timestamp = refl
destination_order_cmp-ranks by_source_timestamp by_reception_timestamp = refl
destination_order_cmp-ranks by_source_timestamp by_source_timestamp = refl

pub is_less-destination_order_cmp :
    (a b : DestinationOrderQosPolicyKind)
    → (is_less (destination_order_cmp a b) ≡ false)
      ↔ (destination_order_rank b ≤ destination_order_rank a)
is_less-destination_order_cmp a b =
    rw (destination_order_cmp-ranks a b)
      (is_less-rank_cmp (destination_order_rank a) (destination_order_rank b))

is_less-duration_cmp :
    (a b : Duration) → (is_less (duration_cmp a b) ≡ false) ↔ (duration_le b a ≡ true)
unfolding duration_cmp duration_le pair_le
is_less-duration_cmp a b = ground arith

pub is_less-duration_kind_cmp :
    (a b : DurationKind) → (is_less (duration_kind_cmp a b) ≡ false) ↔ (duration_kind_le b a ≡ true)
unfolding duration_kind_cmp duration_kind_le
is_less-duration_kind_cmp (finite a) (finite b) = is_less-duration_cmp a b
is_less-duration_kind_cmp (finite a) infinite = ground arith
is_less-duration_kind_cmp infinite (finite b) = ground arith
is_less-duration_kind_cmp infinite infinite = ground arith

pub is_greater-duration_kind_cmp :
    (a b : DurationKind)
    → (is_greater (duration_kind_cmp a b) ≡ false) ↔ (duration_kind_le a b ≡ true)
is_greater-duration_kind_cmp a b =
    rw (sym (is_less-reversed (duration_kind_cmp a b)), sym (duration_kind_cmp-reversed a b))
      (is_less-duration_kind_cmp b a)

then_rank_cmp :
    (m n : ℕ) (o : Ordering)
    → (is_less (then_cmp (rank_cmp m n) o) ≡ false) ↔ ((n < m) ⊎ ((m ≡ n) × (is_less o ≡ false)))
then_rank_cmp m n o = ground arith

pub is_less-liveliness_cmp :
    (a b : LivelinessQosPolicy)
    → (is_less (liveliness_cmp a b) ≡ false) ↔ (
        (liveliness_rank b.kind < liveliness_rank a.kind)
        ⊎ ((liveliness_rank a.kind ≡ liveliness_rank b.kind)
            × (is_less (duration_kind_cmp a.lease_duration b.lease_duration) ≡ false)))
unfolding liveliness_cmp
is_less-liveliness_cmp a b = rw (liveliness_kind_cmp-ranks a.kind b.kind) (
    then_rank_cmp (liveliness_rank a.kind) (liveliness_rank b.kind)
      (duration_kind_cmp a.lease_duration b.lease_duration))
