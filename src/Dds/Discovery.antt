-- ===== src/Dds/Discovery.antt =====
-- dds/src/implementation/domain_participant_backend/services/discovery_service.rs: what an entity
-- announces of its QoS, and the policies for which a discovered entity does not match it.
pub mod Agreement
pub mod Accepted
use dust_dds.Base.{
  ℕ, Bool, true, false, not, ◌&&◌, ◌||◌, Option, none, some, List, [], ◌∷◌, ◌++◌, ◌==◌, contains,
  if◌then◌else◌,
}
use dust_dds.Transport.Types.{Guid, truth}
use dust_dds.Dds.Qos.{
  PresentationQosPolicy, PublisherQos, SubscriberQos, DataReaderQos, DataWriterQos,
  OwnershipQosPolicyKind, Ownership-discrete,
}
use dust_dds.Dds.Qos.Orders.{
  is_less, is_greater, durability_cmp, access_scope_cmp, duration_kind_cmp, liveliness_cmp,
  reliability_cmp, destination_order_cmp,
}
use dust_dds.Dds.DataReader.{PublicationBuiltinTopicData}
use dust_dds.Dds.DataReader.Adding.{guid_octets}
use dust_dds.Dds.DataWriter.{SubscriptionBuiltinTopicData}

abbrev pub durability_qos_policy_id : ℕ
durability_qos_policy_id = 2

abbrev pub presentation_qos_policy_id : ℕ
presentation_qos_policy_id = 3

abbrev pub deadline_qos_policy_id : ℕ
deadline_qos_policy_id = 4

abbrev pub latencybudget_qos_policy_id : ℕ
latencybudget_qos_policy_id = 5

abbrev pub ownership_qos_policy_id : ℕ
ownership_qos_policy_id = 6

abbrev pub liveliness_qos_policy_id : ℕ
liveliness_qos_policy_id = 8

abbrev pub reliability_qos_policy_id : ℕ
reliability_qos_policy_id = 11

abbrev pub destinationorder_qos_policy_id : ℕ
destinationorder_qos_policy_id = 12

abbrev pub data_representation_qos_policy_id : ℕ
data_representation_qos_policy_id = 23

abbrev pub xcdr_data_representation : ℕ
xcdr_data_representation = 0

-- `AnnounceDataWriter` and `AnnounceDataReader`: the announced data.
unfoldable pub publication_data : Guid → DataWriterQos → PublisherQos → PublicationBuiltinTopicData
publication_data guid writer_qos publisher_qos = record {
  key = guid_octets guid;
  durability = writer_qos.durability;
  deadline = writer_qos.deadline;
  latency_budget = writer_qos.latency_budget;
  liveliness = writer_qos.liveliness;
  reliability = writer_qos.reliability;
  ownership = writer_qos.ownership;
  ownership_strength = writer_qos.ownership_strength;
  destination_order = writer_qos.destination_order;
  presentation = publisher_qos.presentation;
  representation = writer_qos.representation;
}

unfoldable pub subscription_data :
    Guid → DataReaderQos → SubscriberQos → SubscriptionBuiltinTopicData
subscription_data guid reader_qos subscriber_qos = record {
  key = guid_octets guid;
  durability = reader_qos.durability;
  deadline = reader_qos.deadline;
  latency_budget = reader_qos.latency_budget;
  liveliness = reader_qos.liveliness;
  reliability = reader_qos.reliability;
  ownership = reader_qos.ownership;
  destination_order = reader_qos.destination_order;
  presentation = subscriber_qos.presentation;
  representation = reader_qos.representation;
}

-- `if test { list.push(id) }`, on a list that only grows.
abbrev pub pushed : Bool → ℕ → List ℕ
pushed test id = if test then id ∷ [] else []

abbrev pub is_different : Bool → Bool → Bool
is_different true b = not b
is_different false b = b

abbrev pub ownership_differs : OwnershipQosPolicyKind → OwnershipQosPolicyKind → Bool
ownership_differs a b = not (truth (Ownership-discrete a b))

abbrev pub is_empty : List ℕ → Bool
is_empty [] = true
is_empty (x ∷ xs) = false

-- `value.first().unwrap_or(&XCDR_DATA_REPRESENTATION)`.
abbrev pub offered_representation : List ℕ → ℕ
offered_representation [] = xcdr_data_representation
offered_representation (x ∷ xs) = x

abbrev pub presentation_is_lower : PresentationQosPolicy → PresentationQosPolicy → Bool
presentation_is_lower offered requested =
    is_less (access_scope_cmp offered.access_scope requested.access_scope)
    || is_different offered.coherent_access requested.coherent_access
    || is_different offered.ordered_access requested.ordered_access

abbrev pub presentation_is_higher : PresentationQosPolicy → PresentationQosPolicy → Bool
presentation_is_higher requested offered =
    is_greater (access_scope_cmp requested.access_scope offered.access_scope)
    || is_different requested.coherent_access offered.coherent_access
    || is_different requested.ordered_access offered.ordered_access

unfoldable pub get_discovered_reader_incompatible_qos_policy_list :
    DataWriterQos → SubscriptionBuiltinTopicData → PublisherQos → List ℕ
unfolding durability_cmp access_scope_cmp duration_kind_cmp liveliness_cmp reliability_cmp
    destination_order_cmp Ownership-discrete
get_discovered_reader_incompatible_qos_policy_list w r publisher_qos =
    let offered = offered_representation w.representation in
    pushed (is_less (durability_cmp w.durability r.durability)) durability_qos_policy_id
    ++ pushed (presentation_is_lower publisher_qos.presentation r.presentation)
        presentation_qos_policy_id
    ++ pushed (is_greater (duration_kind_cmp w.deadline r.deadline)) deadline_qos_policy_id
    ++ pushed (is_less (duration_kind_cmp w.latency_budget r.latency_budget))
        latencybudget_qos_policy_id
    ++ pushed (is_less (liveliness_cmp w.liveliness r.liveliness)) liveliness_qos_policy_id
    ++ pushed (is_less (reliability_cmp w.reliability.kind r.reliability.kind))
        reliability_qos_policy_id
    ++ pushed (is_less (destination_order_cmp w.destination_order r.destination_order))
        destinationorder_qos_policy_id
    ++ pushed (ownership_differs w.ownership r.ownership) ownership_qos_policy_id
    ++ pushed
        (not (
          contains offered r.representation
          || (offered == xcdr_data_representation && is_empty r.representation)))
        data_representation_qos_policy_id

unfoldable pub get_discovered_writer_incompatible_qos_policy_list :
    DataReaderQos → PublicationBuiltinTopicData → SubscriberQos → List ℕ
unfolding durability_cmp access_scope_cmp duration_kind_cmp liveliness_cmp reliability_cmp
    destination_order_cmp Ownership-discrete
get_discovered_writer_incompatible_qos_policy_list r w subscriber_qos =
    let offered = offered_representation w.representation in
    pushed (presentation_is_higher subscriber_qos.presentation w.presentation)
      presentation_qos_policy_id
    ++ pushed (is_greater (durability_cmp r.durability w.durability)) durability_qos_policy_id
    ++ pushed (is_less (duration_kind_cmp r.deadline w.deadline)) deadline_qos_policy_id
    ++ pushed (is_greater (duration_kind_cmp r.latency_budget w.latency_budget))
        latencybudget_qos_policy_id
    ++ pushed (is_greater (liveliness_cmp r.liveliness w.liveliness)) liveliness_qos_policy_id
    ++ pushed (is_greater (reliability_cmp r.reliability.kind w.reliability.kind))
        reliability_qos_policy_id
    ++ pushed (is_greater (destination_order_cmp r.destination_order w.destination_order))
        destinationorder_qos_policy_id
    ++ pushed (ownership_differs r.ownership w.ownership) ownership_qos_policy_id
    ++ (if not (contains offered r.representation)
        then pushed (not (offered == xcdr_data_representation && is_empty r.representation))
            data_representation_qos_policy_id
        else [])
