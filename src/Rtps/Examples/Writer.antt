-- ===== src/Rtps/Examples/Writer.antt =====
-- The stateful writer's theorems on a writer with two changes and one matched reader.
use dust_dds.Base.{◌||◌, map, range, false, ℕ, ◌≡◌, refl, arith, some, List, [], ◌∷◌, contains, ret}
use dust_dds.Base.Returns.{Returns}
use dust_dds.Transport.Types.{reliable}
use dust_dds.Rtps.SequenceNumberSet.{SequenceNumberSet}
use dust_dds.Rtps.Messages.Submessages.{Message}
use dust_dds.Rtps.ReaderProxy.{
  RtpsReaderProxy, next_requested_change, next_unsent_change, requested_changes_set,
}
use dust_dds.Rtps.ReaderProxy.Requests.{
  Next, next_requested_change-Next, IsOnce, requested_changes_set-IsOnce,
}
use dust_dds.Rtps.ReaderProxy.Unsent.{NextUnsent, next_unsent_change-NextUnsent}
use dust_dds.Rtps.StatefulWriter.Sending.{key_flag_of, number_of_fragments}
use dust_dds.Rtps.StatefulWriter.Sending.{change_messages, key_flag_of, number_of_fragments}
use dust_dds.Rtps.StatefulWriter.Reliable.{Sender, send_relevant_change}
use dust_dds.Rtps.StatefulWriter.BestEffort.{Sent}
use dust_dds.Rtps.ReaderLocator.{RtpsReaderLocator}
use dust_dds.Rtps.WriterProxy.Fragments.{reconstruct_from, remove_fragments}
use dust_dds.Rtps.StatefulWriter.Fragmentation.{
  fragment, fragment_message, joined, reconstruct_from-change_messages,
}
use dust_dds.Rtps.Examples.Fixture.{writer_id, reader_proxy, proxy, change, two_changes}

-- The numbers 1 and 2 from the base 1.
abbrev both : SequenceNumberSet
both = record { base = 1; num_bits = 2; bitmap = 0xc000_0000 ∷ 0 ∷ 0 ∷ 0 ∷ 0 ∷ 0 ∷ 0 ∷ 0 ∷ [] }

abbrev asking : RtpsReaderProxy
asking = record (reader_proxy reliable 2) { requested_changes = 2 ∷ 1 ∷ [] }

next_requested_change-Next_example : Next asking (next_requested_change asking)
next_requested_change-Next_example = next_requested_change-Next asking

requested_changes_set-IsOnce_example :
    IsOnce (requested_changes_set asking (3 ∷ 2 ∷ [])).requested_changes
    × ((sn : ℕ)
        → contains sn (requested_changes_set asking (3 ∷ 2 ∷ [])).requested_changes
          ≡ (contains sn (2 ∷ 1 ∷ []) || contains sn (3 ∷ 2 ∷ [])))
    × (requested_changes_set asking (3 ∷ 2 ∷ []) ≡ record asking {
      requested_changes = (requested_changes_set asking (3 ∷ 2 ∷ [])).requested_changes;
    })
requested_changes_set-IsOnce_example =
    requested_changes_set-IsOnce asking (3 ∷ 2 ∷ []) (refl, (refl, tt))

next_unsent_change-NextUnsent_example :
    NextUnsent
      (reader_proxy reliable 1)
      two_changes
      (next_unsent_change (reader_proxy reliable 1) two_changes)
next_unsent_change-NextUnsent_example =
    next_unsent_change-NextUnsent (reader_proxy reliable 1) two_changes

abbrev five_octets : List ℕ
five_octets = 1 ∷ 2 ∷ 3 ∷ 4 ∷ 5 ∷ []

abbrev sender : Sender
sender = record {
  writer_id = writer_id;
  changes = change 2 five_octets ∷ [];
  seq_num_min = some 2;
  seq_num_max = some 2;
  data_max_size_serialized = 2;
  heartbeat_period = 0;
  now = 5;
}

abbrev fragments : List Message
fragments =
    map (fragment_message (reader_proxy reliable 1) writer_id (change 2 five_octets) 2 false)
      (range 0 3)

reconstruct_from-change_messages_example :
    (change_messages (reader_proxy reliable 1) writer_id (change 2 five_octets) 2 ≡ ret fragments)
    × (send_relevant_change sender (reader_proxy reliable 1) (change 2 five_octets)
        ≡ ret (reader_proxy reliable 1, fragments))
    × (reconstruct_from (proxy reliable) 2 (
          map
            (fragment (reader_proxy reliable 1) writer_id (change 2 five_octets) 2 false)
            (range 0 3))
        ≡ ret (
          record (proxy reliable) { frag_buffer = remove_fragments 2 [] },
          some (
              joined
                (reader_proxy reliable 1)
                writer_id
                (change 2 five_octets)
                2
                false
                (proxy reliable)),
        ))
reconstruct_from-change_messages_example =
    reconstruct_from-change_messages sender (reader_proxy reliable 1) (change 2 five_octets) false
      (proxy reliable) 3 (omega arith) (omega arith) (omega arith) (omega arith)
      (unfold key_flag_of in refl) (unfold number_of_fragments in refl)

abbrev locator : RtpsReaderLocator
locator = record {
  locator = record { kind = 1; port = 7400; address = [] };
  expects_inline_qos = false;
  highest_sent_change_sn = 1;
}
