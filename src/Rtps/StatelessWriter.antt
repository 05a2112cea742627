-- ===== src/Rtps/StatelessWriter.antt =====
-- dds/src/rtps/stateless_writer.rs. A message that is sent is returned, in order.
pub mod Sent
use dust_dds.Base.{
  ℕ, zero, suc, ◌+◌, Bool, true, false, not, Option, none, some, List, [], ◌∷◌, ◌++◌, ◌==◌, retain,
  length, Outcome, ret, stuck, ◌>>=◌,
}
use dust_dds.Transport.Types.{EntityId, Guid, Locator, SequenceNumber, entityid_unknown, locator_eq}
use dust_dds.Transport.History.{CacheChange}
use dust_dds.Rtps.Messages.Submessages.{data_message, Message}
use dust_dds.Rtps.CacheChange.{as_data_submessage}
use dust_dds.Rtps.ReaderLocator
use dust_dds.Rtps.ReaderLocator.{RtpsReaderLocator, next_unsent_change, set_highest_sent_change_sn}
use dust_dds.Rtps.StatefulWriter.Sending.{find_change, info_timestamp_of, gap_of}

pub record RtpsStatelessWriter : Type 0 where
  pub guid : Guid
  pub changes : List CacheChange
  pub reader_locators : List RtpsReaderLocator

abbrev pub new : Guid → RtpsStatelessWriter
new guid = record { guid = guid; changes = []; reader_locators = [] }

unfoldable pub add_change : RtpsStatelessWriter → CacheChange → RtpsStatelessWriter
add_change w cache_change = record w { changes = w.changes ++ cache_change ∷ [] }

unfoldable pub remove_change : RtpsStatelessWriter → SequenceNumber → RtpsStatelessWriter
remove_change w sequence_number = record w {
  changes = retain (λ cc. not (cc.sequence_number == sequence_number)) w.changes;
}

unfoldable pub reader_locator_add : RtpsStatelessWriter → Locator → RtpsStatelessWriter
reader_locator_add w locator = record w {
  reader_locators = w.reader_locators ++ ReaderLocator.new locator false ∷ [];
}

unfoldable pub reader_locator_remove : RtpsStatelessWriter → Locator → RtpsStatelessWriter
reader_locator_remove w locator = record w {
  reader_locators = retain (λ x. not (locator_eq x.locator locator)) w.reader_locators;
}

-- The message for one number.
unfoldable pub change_message :
    EntityId → List CacheChange → RtpsReaderLocator → SequenceNumber → Message
unfolding find_change info_timestamp_of
change_message writer_id changes r sn = elim (find_change changes sn) [
  | some change ↦ record {
    submessages =
        info_timestamp_of change
        ∷ data_message (as_data_submessage change entityid_unknown writer_id)
        ∷ [];
    destination_locator_list = r.locator ∷ [];
  }
  | none ↦ record {
    submessages = gap_of entityid_unknown writer_id sn sn ∷ [];
    destination_locator_list = r.locator ∷ [];
  }
]

-- The `while let` loop on fuel.
unfoldable pub locator_loop :
    ℕ → EntityId → List CacheChange → RtpsReaderLocator → Outcome (RtpsReaderLocator × List Message)
unfolding change_message
locator_loop zero writer_id changes r = stuck
locator_loop (suc fuel) writer_id changes r = elim (next_unsent_change r changes) [
  | none ↦ ret (r, [])
  | some sn ↦ (do
    (r', later) ← locator_loop fuel writer_id changes (set_highest_sent_change_sn r sn)
    ret (r', change_message writer_id changes r sn ∷ later))
]

-- Each round sends a change, so one round more than there are changes is enough.
unfoldable pub send_to_locators :
    EntityId
    → List CacheChange
    → List RtpsReaderLocator
    → Outcome (List RtpsReaderLocator × List Message)
unfolding locator_loop
send_to_locators writer_id changes [] = ret ([], [])
send_to_locators writer_id changes (r ∷ rs) = do
  (r', sent) ← locator_loop (suc (length changes)) writer_id changes r
  (rs', later) ← send_to_locators writer_id changes rs
  ret (r' ∷ rs', sent ++ later)

unfoldable pub send_message : RtpsStatelessWriter → Outcome (RtpsStatelessWriter × List Message)
unfolding send_to_locators
send_message w = do
  (locators, sent) ← send_to_locators w.guid.entity_id w.changes w.reader_locators
  ret (record w { reader_locators = locators }, sent)
