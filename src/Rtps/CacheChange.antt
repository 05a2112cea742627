-- ===== src/Rtps/CacheChange.antt =====
-- dds/src/rtps/cache_change.rs: a change of the history cache as a DATA submessage and back.
use native.Mathlib.Decide.{ℕ_discrete}
use mathlib.Core.Option
use dust_dds.Base.{
  ℕ, ◌%◌, ◌^◌, Bool, true, false, Option, none, some, List, [], ◌∷◌, ◌++◌, ◌==◌, if◌then◌else◌,
  length, take, find,
}
use dust_dds.Transport.Types.{
  Guid, GuidPrefix, EntityId, ChangeKind, alive, alive_filtered, not_alive_disposed,
  not_alive_unregistered, not_alive_disposed_unregistered, truth,
}
use dust_dds.Transport.History.{CacheChange}
use dust_dds.Rtps.Messages.Types.{Time, from_message_time}
use dust_dds.Rtps.Messages.Submessages.{Parameter, DataSubmessage}
pub mod Laws

abbrev pub pid_key_hash : ℕ
pid_key_hash = 0x70

abbrev pub pid_status_info : ℕ
pid_status_info = 0x71

abbrev pub status_info_disposed : List ℕ
status_info_disposed = 0 ∷ 0 ∷ 0 ∷ 1 ∷ []

abbrev pub status_info_unregistered : List ℕ
status_info_unregistered = 0 ∷ 0 ∷ 0 ∷ 2 ∷ []

abbrev pub status_info_disposed_unregistered : List ℕ
status_info_disposed_unregistered = 0 ∷ 0 ∷ 0 ∷ 3 ∷ []

abbrev pub status_info_filtered : List ℕ
status_info_filtered = 0 ∷ 0 ∷ 0 ∷ 4 ∷ []

-- The (data_flag, key_flag) of a kind.
pub flags_of_kind : ChangeKind → Bool × Bool
flags_of_kind alive = (true, false)
flags_of_kind alive_filtered = (true, false)
flags_of_kind _ = (false, true)

pub status_info_of_kind : ChangeKind → List Parameter
status_info_of_kind alive = []
status_info_of_kind alive_filtered = []
status_info_of_kind not_alive_disposed =
    record { parameter_id = pid_status_info; value = status_info_disposed } ∷ []
status_info_of_kind not_alive_unregistered =
    record { parameter_id = pid_status_info; value = status_info_unregistered } ∷ []
status_info_of_kind not_alive_disposed_unregistered =
    record { parameter_id = pid_status_info; value = status_info_disposed_unregistered } ∷ []

pub key_hash_of_handle : Option (List ℕ) → List Parameter
key_hash_of_handle none = []
key_hash_of_handle (some i) = record { parameter_id = pid_key_hash; value = i } ∷ []

unfoldable pub as_data_submessage : CacheChange → EntityId → EntityId → DataSubmessage
unfolding flags_of_kind status_info_of_kind key_hash_of_handle
as_data_submessage change reader_id writer_id =
    let (data_flag, key_flag) = flags_of_kind change.kind in
    record {
      inline_qos_flag = true;
      data_flag = data_flag;
      key_flag = key_flag;
      non_standard_payload_flag = false;
      reader_id = reader_id;
      writer_id = writer_id;
      writer_sn = change.sequence_number;
      inline_qos = status_info_of_kind change.kind ++ key_hash_of_handle change.instance_handle;
      serialized_payload = change.data_value;
    }

-- The messages of the error are left out.
pub data ConversionError : Type 0 where
  invalid_status_info invalid_status_info_length : ConversionError

pub data Result {ℓ} (A : Type ℓ) : Type ℓ where
  ok : A → Result A
  err : ConversionError → Result A

infixl 5 ◌>>=◌
abbrev pub ◌>>=◌ {ℓ κ} : {A : Type ℓ} {B : Type κ} → Result A → (A → Result B) → Result B
ok a >>= f = f a
err e >>= f = err e

octets_discrete : Discrete (List ℕ)
unfolding ℕ_discrete
octets_discrete = hlevel ℕ_discrete

octets_eq : List ℕ → List ℕ → Bool
unfolding octets_discrete
octets_eq a b = truth (octets_discrete a b)

pub kind_of_status_info : List ℕ → Result ChangeKind
unfolding octets_eq
kind_of_status_info status_info =
    if octets_eq status_info status_info_disposed
    then ok not_alive_disposed
    else if octets_eq status_info status_info_unregistered
    then ok not_alive_unregistered
    else if octets_eq status_info status_info_disposed_unregistered
    then ok not_alive_disposed_unregistered
    else if octets_eq status_info status_info_filtered
    then ok alive_filtered
    else err invalid_status_info

-- `length` is `value.len() as i16`.
pub kind_of_parameter : Option Parameter → Result ChangeKind
unfolding kind_of_status_info
kind_of_parameter (some p) =
    if length p.value % 2 ^ 16 == 4
    then kind_of_status_info (take 4 p.value)
    else err invalid_status_info_length
kind_of_parameter none = ok alive

pub handle_of_parameter : Option Parameter → Option (List ℕ)
handle_of_parameter (some p) = if length p.value == 16 then some p.value else none
handle_of_parameter none = none

unfoldable pub try_from_data_submessage :
    DataSubmessage → GuidPrefix → Option Time → Result CacheChange
unfolding kind_of_parameter handle_of_parameter
try_from_data_submessage data_submessage source_guid_prefix source_timestamp = do
  kind ←
      kind_of_parameter (find (λ x. x.parameter_id == pid_status_info) data_submessage.inline_qos)
  ok (record {
    kind = kind;
    writer_guid = record { prefix = source_guid_prefix; entity_id = data_submessage.writer_id };
    source_timestamp = Option.map from_message_time source_timestamp;
    instance_handle =
        handle_of_parameter (find (λ x. x.parameter_id == pid_key_hash) data_submessage.inline_qos);
    sequence_number = data_submessage.writer_sn;
    data_value = data_submessage.serialized_payload;
  })
