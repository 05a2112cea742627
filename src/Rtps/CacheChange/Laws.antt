-- ===== src/Rtps/CacheChange/Laws.antt =====
-- A change that a writer sends as a DATA submessage arrives as that change.
use mathlib.Core.Option
use native.Mathlib.Decide.{ℕ_discrete}
use dust_dds.Base.{ℕ, ◌≡◌, refl, Option, none, some, List, ◌++◌, ◌==◌, length, find}
use dust_dds.Transport.Types.{
  GuidPrefix, EntityId, alive, alive_filtered, not_alive_disposed, not_alive_unregistered,
  not_alive_disposed_unregistered, ChangeKind,
}
use dust_dds.Transport.History.{CacheChange}
use dust_dds.Rtps.Messages.Types.{Time, from_message_time}
use dust_dds.Rtps.CacheChange.{
  as_data_submessage, try_from_data_submessage, ok, octets_eq, octets_discrete, kind_of_parameter,
  handle_of_parameter, status_info_of_kind, key_hash_of_handle, pid_status_info, pid_key_hash,
}

-- The kind that arrives: the filtered kind is sent without a status and reads as alive.
abbrev pub received_kind : ChangeKind → ChangeKind
received_kind alive_filtered = alive
received_kind k = k

-- A handle is an array of 16 octets.
abbrev pub IsHandle : Option (List ℕ) → Type 0
IsHandle none = Unit {0}
IsHandle (some i) = length i ≡ 16

sent_kind :
    (k : ChangeKind) (h : Option (List ℕ))
    → kind_of_parameter (
        find
          (λ x. x.parameter_id == pid_status_info)
          (status_info_of_kind k ++ key_hash_of_handle h))
      ≡ ok (received_kind k)
unfolding as_data_submessage kind_of_parameter octets_eq octets_discrete ℕ_discrete
sent_kind alive none = refl
sent_kind alive (some i) = refl
sent_kind alive_filtered none = refl
sent_kind alive_filtered (some i) = refl
sent_kind not_alive_disposed h = refl
sent_kind not_alive_unregistered h = refl
sent_kind not_alive_disposed_unregistered h = refl

sent_handle :
    (k : ChangeKind) (h : Option (List ℕ))
    → IsHandle h
    → handle_of_parameter
        (find (λ x. x.parameter_id == pid_key_hash) (status_info_of_kind k ++ key_hash_of_handle h))
      ≡ h
unfolding as_data_submessage handle_of_parameter
sent_handle alive none i = refl
sent_handle alive (some h) i = rw i
sent_handle alive_filtered none i = refl
sent_handle alive_filtered (some h) i = rw i
sent_handle not_alive_disposed none i = refl
sent_handle not_alive_disposed (some h) i = rw i
sent_handle not_alive_unregistered none i = refl
sent_handle not_alive_unregistered (some h) i = rw i
sent_handle not_alive_disposed_unregistered none i = refl
sent_handle not_alive_disposed_unregistered (some h) i = rw i

-- The change that a writer sends as a DATA submessage is the change that the reader decodes: its
-- kind (but for the filtered kind, which arrives as alive), its handle of 16 octets, its sequence
-- number and its data. The writer's guid is the message's source with the writer's entity id, and
-- the timestamp is the message's.
pub try_from_data_submessage-as_data_submessage :
    (change : CacheChange) (reader_id writer_id : EntityId) (prefix : GuidPrefix)
    (timestamp : Option Time)
    → IsHandle change.instance_handle
    → try_from_data_submessage (as_data_submessage change reader_id writer_id) prefix timestamp
      ≡ ok (record change {
        kind = received_kind change.kind;
        writer_guid = record { prefix = prefix; entity_id = writer_id };
        source_timestamp = Option.map from_message_time timestamp;
      })
unfolding as_data_submessage try_from_data_submessage
try_from_data_submessage-as_data_submessage change reader_id writer_id prefix timestamp h =
    rw (
      sent_kind change.kind change.instance_handle,
      sent_handle change.kind change.instance_handle h,
    )
