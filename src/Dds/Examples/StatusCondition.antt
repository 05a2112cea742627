-- ===== src/Dds/Examples/StatusCondition.antt =====
-- A status condition that is sent three mails.
use dust_dds.Base.{◌≡◌, refl, ◌↔◌, true, List, [], ◌∷◌}
use dust_dds.Dds.Status.{
  StatusKind, StatusMail, add_communication_state, remove_communication_state, data_available,
  sample_rejected,
}
use dust_dds.Dds.StatusCondition.{default_condition, contains_status, get_trigger_value, handle_all}
use dust_dds.Dds.StatusCondition.Trigger.{IsPending, get_trigger_value-handle_all}

abbrev mails : List StatusMail
mails =
    add_communication_state data_available
    ∷ add_communication_state sample_rejected
    ∷ remove_communication_state data_available
    ∷ []

get_trigger_value-handle_all_example :
    (get_trigger_value (handle_all default_condition mails) ≡ true) ↔ (
      (s : StatusKind) × (contains_status s default_condition.enabled_statuses ≡ true)
      × IsPending s mails)
get_trigger_value-handle_all_example = get_trigger_value-handle_all default_condition mails refl
