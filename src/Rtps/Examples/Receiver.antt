-- ===== src/Rtps/Examples/Receiver.antt =====
-- The message receiver on a message to one entity of each kind.
use dust_dds.Base.{ℕ, ◌≡◌, refl, true, none, List, [], ◌∷◌, map}
use dust_dds.Transport.Types.{reliable, guidprefix_unknown}
use dust_dds.Rtps.Messages.Types.{time_invalid}
use dust_dds.Rtps.Messages.Submessages.{
  Submessage, data_message, info_destination, info_timestamp, Message,
}
use dust_dds.Rtps.StatelessReader
use dust_dds.Rtps.StatefulReader.{RtpsStatefulReader, on_data_submessage_received}
use dust_dds.Rtps.StatefulReader.Run.{run}
use dust_dds.Rtps.MessageReceiver
use dust_dds.Rtps.MessageReceiver.{MessageReceiver, Entities, process_message}
use dust_dds.Rtps.MessageReceiver.Events.{reader_events, run_stateless, Readable}
use dust_dds.Rtps.MessageReceiver.Alone.{process_message-Alone, outcome}
use dust_dds.Rtps.Examples.Fixture.{reader, reader_guid, data_of}

abbrev message : List Submessage
message =
    info_destination (record { guid_prefix = guidprefix_unknown })
    ∷ data_message (data_of 1)
    ∷ info_timestamp (record { invalidate_flag = true; timestamp = time_invalid })
    ∷ data_message (data_of 2)
    ∷ []

abbrev receiver : MessageReceiver
receiver = MessageReceiver.new (record {
  header = record {
    version = record { bytes = 2 ∷ 4 ∷ [] };
    vendor_id = 1 ∷ 20 ∷ [];
    guid_prefix = guidprefix_unknown;
  };
  submessages = message;
})

abbrev entities : Entities
entities = record {
  stateless_reader_list = StatelessReader.new reader_guid ∷ [];
  stateful_reader_list = reader reliable ∷ [];
  stateful_writer_list = [];
}

abbrev given : RtpsStatefulReader → ℕ → RtpsStatefulReader
given r sn = on_data_submessage_received r (data_of sn) guidprefix_unknown none

process_message-Alone_example :
    (sent : List Message) × (process_message (λ i. i) receiver entities
      ≡ outcome
          (map (run_stateless receiver message) (StatelessReader.new reader_guid ∷ []))
          (given (given (reader reliable) 1) 2 ∷ [])
          []
          sent)
process_message-Alone_example =
    process_message-Alone (λ i. i) receiver entities (given (given (reader reliable) 1) 2 ∷ []) []
      (unfold Readable in tt) (unfold run reader_events in (refl, tt)) tt
