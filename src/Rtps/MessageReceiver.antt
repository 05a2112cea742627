-- ===== src/Rtps/MessageReceiver.antt =====
-- dds/src/rtps/message_receiver.rs: the interpretation of one message. A submessage is read in the
-- state that the INFO submessages before it left. The `i`-th call of `Instant::now`, counted by the
-- submessages, reads `now i`.
pub mod Each
pub mod Events
pub mod Alone
use dust_dds.Base.{
  ℕ, suc, Bool, true, false, Option, none, some, List, [], ◌∷◌, ◌++◌, map, if◌then◌else◌, Outcome,
  ret, panic, stuck, ◌>>=◌,
}
use dust_dds.Transport.Types.{GuidPrefix, Locator, ProtocolVersion, guidprefix_unknown}
use dust_dds.Rtps.Messages.Types.{Time, time_invalid}
use dust_dds.Rtps.Messages.Submessages.{
  Submessage, ack_nack, data_message, data_frag, gap, heartbeat, heartbeat_frag, info_destination,
  info_reply, info_source, info_timestamp, nack_frag, pad, Message, RtpsMessageRead,
}
use dust_dds.Rtps.StatelessReader.{RtpsStatelessReader}
use dust_dds.Rtps.StatelessReader
use dust_dds.Rtps.StatefulReader.{
  RtpsStatefulReader, on_data_submessage_received, on_data_frag_submessage_received,
  on_gap_submessage_received, on_heartbeat_submessage_received,
  on_heartbeat_frag_submessage_received,
}
use dust_dds.Rtps.StatefulWriter.{
  RtpsStatefulWriter, on_acknack_submessage_received, on_nack_frag_submessage_received,
}

pub record MessageReceiver : Type 0 where
  pub source_version : ProtocolVersion
  pub source_vendor_id : List ℕ
  pub source_guid_prefix : GuidPrefix
  pub dest_guid_prefix : GuidPrefix
  pub unicast_reply_locator_list : List Locator
  pub multicast_reply_locator_list : List Locator
  pub have_timestamp : Bool
  pub timestamp : Time
  pub submessages : List Submessage

abbrev pub new : RtpsMessageRead → MessageReceiver
new message = record {
  source_version = message.header.version;
  source_vendor_id = message.header.vendor_id;
  source_guid_prefix = message.header.guid_prefix;
  dest_guid_prefix = guidprefix_unknown;
  unicast_reply_locator_list = [];
  multicast_reply_locator_list = [];
  have_timestamp = false;
  timestamp = time_invalid;
  submessages = message.submessages;
}

abbrev pub source_timestamp : MessageReceiver → Option Time
source_timestamp s = if s.have_timestamp then some s.timestamp else none

-- The arms of an INFO submessage and of PAD, which `next` and `process_message` share. InfoReply is
-- a `todo!()`. The other submessages leave the state.
unfoldable pub interpret : MessageReceiver → Submessage → Outcome MessageReceiver
interpret s (info_destination m) = ret (record s { dest_guid_prefix = m.guid_prefix })
interpret s (info_reply m) = panic
interpret s (info_source m) = ret (record s {
  source_vendor_id = m.vendor_id;
  source_version = m.protocol_version;
  source_guid_prefix = m.guid_prefix;
})
interpret s (info_timestamp m) =
    if m.invalidate_flag
    then ret (record s { have_timestamp = false; timestamp = time_invalid })
    else ret (record s { have_timestamp = true; timestamp = m.timestamp })
interpret s m = ret s

-- The submessages that the iterator yields.
unfoldable pub is_entity_submessage : Submessage → Bool
is_entity_submessage (info_destination m) = false
is_entity_submessage (info_reply m) = false
is_entity_submessage (info_source m) = false
is_entity_submessage (info_timestamp m) = false
is_entity_submessage pad = false
is_entity_submessage m = true

unfoldable pub next_from :
    MessageReceiver → List Submessage → Outcome (MessageReceiver × Option Submessage)
unfolding interpret is_entity_submessage
next_from s [] = ret (record s { submessages = [] }, none)
next_from s (m ∷ ms) = elim (is_entity_submessage m) [
  | true ↦ ret (record s { submessages = ms }, some m)
  | false ↦ interpret s m >>= λ s'. next_from s' ms
]

unfoldable pub next : MessageReceiver → Outcome (MessageReceiver × Option Submessage)
unfolding next_from
next s = next_from s s.submessages

-- `for x in list.iter_mut() { x.handler(..) }`, for handlers that may panic, and that also send.
unfoldable pub each {ℓ} : {A : Type ℓ} → (A → Outcome A) → List A → Outcome (List A)
each f [] = ret []
each f (x ∷ xs) = do y ← f x; ys ← each f xs; ret (y ∷ ys)

unfoldable pub each_sending {ℓ} :
    {A : Type ℓ} → (A → Outcome (A × List Message)) → List A → Outcome (List A × List Message)
each_sending f [] = ret ([], [])
each_sending f (x ∷ xs) = do
  (y, sent) ← f x
  (ys, more) ← each_sending f xs
  ret (y ∷ ys, sent ++ more)

-- The lists that `process_message` is lent.
pub record Entities : Type 0 where
  pub stateless_reader_list : List RtpsStatelessReader
  pub stateful_reader_list : List RtpsStatefulReader
  pub stateful_writer_list : List RtpsStatefulWriter

abbrev pub with_readers : Entities → List RtpsStatefulReader → Entities
with_readers e readers = record e { stateful_reader_list = readers }

abbrev pub with_writers : Entities → List RtpsStatefulWriter → Entities
with_writers e writers = record e { stateful_writer_list = writers }

-- The arms of the submessages that go to the entities.
unfoldable pub dispatch :
    ℕ → MessageReceiver → Entities → Submessage → Outcome (Entities × List Message)
unfolding each each_sending
dispatch now s e (ack_nack m) = do
  (writers, sent) ←
      each_sending (λ w. on_acknack_submessage_received w m s.source_guid_prefix now)
        e.stateful_writer_list
  ret (with_writers e writers, sent)
dispatch now s e (data_message m) = ret (
  record e {
    stateless_reader_list =
        map
          (λ r.
            StatelessReader.on_data_submessage_received r m s.source_guid_prefix
              (source_timestamp s))
          e.stateless_reader_list;
    stateful_reader_list =
        map (λ r. on_data_submessage_received r m s.source_guid_prefix (source_timestamp s))
          e.stateful_reader_list;
  },
  [],
)
dispatch now s e (data_frag m) = do
  readers ←
      each (λ r. on_data_frag_submessage_received r m s.source_guid_prefix (source_timestamp s))
        e.stateful_reader_list
  ret (with_readers e readers, [])
dispatch now s e (heartbeat_frag m) = ret (
  with_readers e (
      map (λ r. on_heartbeat_frag_submessage_received r m s.source_guid_prefix)
        e.stateful_reader_list),
  [],
)
dispatch now s e (gap m) = ret (
  with_readers e
      (map (λ r. on_gap_submessage_received r m s.source_guid_prefix) e.stateful_reader_list),
  [],
)
dispatch now s e (heartbeat m) = do
  (readers, sent) ←
      each_sending (λ r. on_heartbeat_submessage_received r m s.source_guid_prefix)
        e.stateful_reader_list
  ret (with_readers e readers, sent)
dispatch now s e (nack_frag m) = do
  (writers, sent) ←
      each_sending (λ w. on_nack_frag_submessage_received w m s.source_guid_prefix now)
        e.stateful_writer_list
  ret (with_writers e writers, sent)
dispatch now s e m = ret (e, [])

unfoldable pub process_from :
    (ℕ → ℕ) → MessageReceiver → Entities → List Submessage → Outcome (Entities × List Message)
unfolding interpret dispatch
process_from now s e [] = ret (e, [])
process_from now s e (m ∷ ms) = do
  s' ← interpret s m
  (e', sent) ← dispatch (now 0) s e m
  (e'', more) ← process_from (λ i. now (suc i)) s' e' ms
  ret (e'', sent ++ more)

unfoldable pub process_message :
    (ℕ → ℕ) → MessageReceiver → Entities → Outcome (Entities × List Message)
unfolding process_from
process_message now s e = process_from now s e s.submessages
