-- ===== src/Rtps/ReaderProxy.antt =====
-- dds/src/rtps/reader_proxy.rs: what a writer knows of one matched reader. The clock, which the
-- source reads by `Instant::now`, is an argument `now`, in nanoseconds.
pub mod Requests
pub mod Unsent
use dust_dds.Base.{
  ℕ, ◌+◌, ◌-◌, Bool, true, false, not, Option, none, some, List, [], ◌∷◌, ◌++◌, map, ◌==◌, ltb, leb,
  if◌then◌else◌, retain, contains, minimum, i32_next,
}
use dust_dds.Transport.Types.{EntityId, Guid, Locator, ReliabilityKind, SequenceNumber}
use dust_dds.Transport.History.{CacheChange}
use dust_dds.Rtps.Messages.Types.{Count}
use dust_dds.Rtps.Messages.Submessages.{HeartbeatSubmessage}

pub record HeartbeatMachine : Type 0 where
  pub count : Count
  pub reader_id : EntityId
  pub timer : ℕ

abbrev pub new_heartbeat_machine : EntityId → ℕ → HeartbeatMachine
new_heartbeat_machine reader_id now = record { count = 0; reader_id = reader_id; timer = now }

-- `elapsed` is 0 for a timer in the future.
unfoldable pub is_time_for_heartbeat : HeartbeatMachine → ℕ → ℕ → Bool
is_time_for_heartbeat machine heartbeat_period now = leb heartbeat_period (now - machine.timer)

unfoldable pub generate_new_heartbeat :
    HeartbeatMachine
    → ℕ
    → EntityId
    → SequenceNumber
    → SequenceNumber
    → HeartbeatMachine × HeartbeatSubmessage
generate_new_heartbeat machine now writer_id first_sn last_sn =
    let count = i32_next machine.count in
    (
      record machine { count = count; timer = now },
      record {
        final_flag = false;
        liveliness_flag = false;
        reader_id = machine.reader_id;
        writer_id = writer_id;
        first_sn = first_sn;
        last_sn = last_sn;
        count = count;
      },
    )

pub record HeartbeatFragMachine : Type 0 where
  pub count : Count
  pub reader_id : EntityId

pub record RtpsReaderProxy : Type 0 where
  pub remote_reader_guid : Guid
  pub remote_group_entity_id : EntityId
  pub unicast_locator_list : List Locator
  pub multicast_locator_list : List Locator
  pub highest_sent_seq_num : SequenceNumber
  pub highest_acked_seq_num : SequenceNumber
  pub requested_changes : List SequenceNumber
  pub expects_inline_qos : Bool
  pub is_active : Bool
  pub last_received_acknack_count : Count
  pub last_received_nack_frag_count : Count
  pub heartbeat_machine : HeartbeatMachine
  pub heartbeat_frag_machine : HeartbeatFragMachine
  pub reliability : ReliabilityKind
  pub first_relevant_sample_seq_num : SequenceNumber

unfoldable pub new :
    Guid
    → EntityId
    → List Locator
    → List Locator
    → Bool
    → Bool
    → ReliabilityKind
    → SequenceNumber
    → ℕ
    → RtpsReaderProxy
new guid group unicast multicast expects_inline_qos is_active reliability first_relevant now =
    record {
      remote_reader_guid = guid;
      remote_group_entity_id = group;
      unicast_locator_list = unicast;
      multicast_locator_list = multicast;
      highest_sent_seq_num = 0;
      highest_acked_seq_num = 0;
      requested_changes = [];
      expects_inline_qos = expects_inline_qos;
      is_active = is_active;
      last_received_acknack_count = 0;
      last_received_nack_frag_count = 0;
      heartbeat_machine = new_heartbeat_machine guid.entity_id now;
      heartbeat_frag_machine = record { count = 0; reader_id = guid.entity_id };
      reliability = reliability;
      first_relevant_sample_seq_num = first_relevant;
    }

unfoldable pub acked_changes_set : RtpsReaderProxy → SequenceNumber → RtpsReaderProxy
acked_changes_set p committed_seq_num =
    if ltb p.highest_acked_seq_num committed_seq_num
    then record p { highest_acked_seq_num = committed_seq_num }
    else p

-- The smallest requested number, which is requested no more.
unfoldable pub next_requested_change : RtpsReaderProxy → Option SequenceNumber × RtpsReaderProxy
next_requested_change p = elim (minimum p.requested_changes) [
  | some next_sn ↦ (
    some next_sn,
    record p { requested_changes = retain (λ sn. not (sn == next_sn)) p.requested_changes },
  )
  | none ↦ (none, p)
]

abbrev pub sequence_numbers : List CacheChange → List SequenceNumber
sequence_numbers changes = map (λ cc. cc.sequence_number) changes

unfoldable pub next_unsent_change : RtpsReaderProxy → List CacheChange → Option SequenceNumber
next_unsent_change p writer_history_cache =
    minimum (retain (λ sn. ltb p.highest_sent_seq_num sn) (sequence_numbers writer_history_cache))

unfoldable pub unsent_changes : RtpsReaderProxy → List CacheChange → Bool
unfolding next_unsent_change
unsent_changes p writer_history_cache = elim (next_unsent_change p writer_history_cache) [
  | some sn ↦ true
  | none ↦ false
]

-- `if !self.requested_changes.contains(&seq_num) { push }` for each number.
unfoldable pub request_all : List SequenceNumber → List SequenceNumber → List SequenceNumber
request_all requested [] = requested
request_all requested (sn ∷ sns) =
    request_all (if not (contains sn requested) then requested ++ sn ∷ [] else requested) sns

unfoldable pub requested_changes_set : RtpsReaderProxy → List SequenceNumber → RtpsReaderProxy
unfolding request_all
requested_changes_set p req_seq_num_set = record p {
  requested_changes = request_all p.requested_changes req_seq_num_set;
}

unfoldable pub unacked_changes : RtpsReaderProxy → Option SequenceNumber → Bool
unacked_changes p (some highest_available_seq_num) =
    ltb p.highest_acked_seq_num highest_available_seq_num
unacked_changes p none = false

unfoldable pub set_highest_sent_seq_num : RtpsReaderProxy → SequenceNumber → RtpsReaderProxy
set_highest_sent_seq_num p seq_num =
    if ltb p.highest_sent_seq_num seq_num then record p { highest_sent_seq_num = seq_num } else p

unfoldable pub set_last_received_acknack_count : RtpsReaderProxy → Count → RtpsReaderProxy
set_last_received_acknack_count p count = record p { last_received_acknack_count = count }

unfoldable pub set_last_received_nack_frag_count : RtpsReaderProxy → Count → RtpsReaderProxy
set_last_received_nack_frag_count p count = record p { last_received_nack_frag_count = count }
