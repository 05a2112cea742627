-- ===== src/Dds/StatusCondition.antt =====
-- dds/src/implementation/status_condition/status_condition_actor.rs: the actor behind the address to
-- which an entity sends the changes of its statuses. A Vec is a list.
pub mod Trigger
use dust_dds.Base.{Bool, true, false, not, ◌||◌, List, [], ◌∷◌, ◌++◌, if◌then◌else◌}
use dust_dds.Transport.Types.{truth}
use dust_dds.Dds.Status.{
  StatusKind, StatusMail, add_communication_state, remove_communication_state, inconsistent_topic,
  offered_deadline_missed, requested_deadline_missed, offered_incompatible_qos,
  requested_incompatible_qos, sample_lost, sample_rejected, data_on_readers, data_available,
  liveliness_lost, liveliness_changed, publication_matched, subscription_matched,
}

pub record StatusConditionActor : Type 0 where
  pub enabled_statuses : List StatusKind
  pub status_changes : List StatusKind

unfoldable pub Status-discrete : Discrete StatusKind
Status-discrete = hlevel

abbrev pub status_eq : StatusKind → StatusKind → Bool
status_eq a b = truth (Status-discrete a b)

-- `Vec::contains`.
abbrev pub contains_status : StatusKind → List StatusKind → Bool
contains_status s [] = false
contains_status s (x ∷ xs) = status_eq x s || contains_status s xs

abbrev pub default_condition : StatusConditionActor
default_condition = record {
  enabled_statuses =
      inconsistent_topic ∷ offered_deadline_missed ∷ requested_deadline_missed
      ∷ offered_incompatible_qos ∷ requested_incompatible_qos ∷ sample_lost ∷ sample_rejected
      ∷ data_on_readers ∷ data_available ∷ liveliness_lost ∷ liveliness_changed
      ∷ publication_matched ∷ subscription_matched ∷ [];
  status_changes = [];
}

abbrev pub add_state : StatusConditionActor → StatusKind → StatusConditionActor
add_state c state = record c { status_changes = c.status_changes ++ state ∷ [] }

-- `retain(|x| x != &state)`.
abbrev pub retain_other : StatusKind → List StatusKind → List StatusKind
retain_other state [] = []
retain_other state (x ∷ xs) =
    if status_eq x state then retain_other state xs else x ∷ retain_other state xs

abbrev pub remove_state : StatusConditionActor → StatusKind → StatusConditionActor
remove_state c state = record c { status_changes = retain_other state c.status_changes }

abbrev pub get_enabled_statuses : StatusConditionActor → List StatusKind
get_enabled_statuses c = c.enabled_statuses

abbrev pub set_enabled_statuses : StatusConditionActor → List StatusKind → StatusConditionActor
set_enabled_statuses c mask = record c { enabled_statuses = mask }

abbrev pub any_enabled : List StatusKind → List StatusKind → Bool
any_enabled enabled [] = false
any_enabled enabled (status ∷ changes) =
    if contains_status status enabled then true else any_enabled enabled changes

unfoldable pub get_trigger_value : StatusConditionActor → Bool
unfolding Status-discrete
get_trigger_value c = any_enabled c.enabled_statuses c.status_changes

-- The handlers of the entities' mails, and the mails one after the other.
unfoldable pub handle : StatusConditionActor → StatusMail → StatusConditionActor
unfolding Status-discrete
handle c (add_communication_state state) = add_state c state
handle c (remove_communication_state state) = remove_state c state

unfoldable pub handle_all : StatusConditionActor → List StatusMail → StatusConditionActor
unfolding handle
handle_all c [] = c
handle_all c (m ∷ ms) = handle_all (handle c m) ms
