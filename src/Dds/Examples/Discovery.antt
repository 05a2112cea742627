-- ===== src/Dds/Examples/Discovery.antt =====
-- The matching at concrete QoS, some of them of another ownership and access scope than offered.
use dust_dds.Base.{◌≡◌, ◌↔◌, [], false}
use mathlib.Core.List.{Perm}
use dust_dds.Transport.Types.{guidprefix_unknown, entityid_unknown, Guid}
use dust_dds.Dds.Qos.{PresentationQosPolicy, shared, exclusive, topic_scope, instance_scope}
use dust_dds.Dds.Discovery.{
  publication_data, subscription_data, get_discovered_reader_incompatible_qos_policy_list,
  get_discovered_writer_incompatible_qos_policy_list,
}
use dust_dds.Dds.Discovery.Agreement.{get_discovered_writer_incompatible_qos_policy_list-Perm}
use dust_dds.Dds.Discovery.Accepted.{
  IsAccepted, get_discovered_reader_incompatible_qos_policy_list-IsAccepted,
}
use dust_dds.Dds.Examples.Fixture.{qos}
use dust_dds.Dds.Examples.Writer.{writer_qos}

abbrev guid : Guid
guid = record { prefix = guidprefix_unknown; entity_id = entityid_unknown }

abbrev presentation : PresentationQosPolicy
presentation = record {
  access_scope = instance_scope;
  coherent_access = false;
  ordered_access = false;
}

abbrev of_topic : PresentationQosPolicy
of_topic = record presentation { access_scope = topic_scope }

get_discovered_writer_incompatible_qos_policy_list-Perm_example :
    Perm
      (get_discovered_writer_incompatible_qos_policy_list
        (qos exclusive)
        (publication_data guid writer_qos (record { presentation = presentation }))
        (record { presentation = of_topic }))
      (get_discovered_reader_incompatible_qos_policy_list writer_qos
        (subscription_data guid (qos exclusive) (record { presentation = of_topic }))
        (record { presentation = presentation }))
get_discovered_writer_incompatible_qos_policy_list-Perm_example =
    get_discovered_writer_incompatible_qos_policy_list-Perm guid guid writer_qos (qos exclusive)
      (record { presentation = presentation }) (record { presentation = of_topic })

get_discovered_reader_incompatible_qos_policy_list-IsAccepted_example :
    (get_discovered_reader_incompatible_qos_policy_list writer_qos
        (subscription_data guid (qos shared) (record { presentation = presentation }))
        (record { presentation = presentation })
      ≡ [])
    ↔ IsAccepted writer_qos
        (subscription_data guid (qos shared) (record { presentation = presentation }))
        (record { presentation = presentation })
get_discovered_reader_incompatible_qos_policy_list-IsAccepted_example =
    get_discovered_reader_incompatible_qos_policy_list-IsAccepted writer_qos
      (subscription_data guid (qos shared) (record { presentation = presentation }))
      (record { presentation = presentation })
