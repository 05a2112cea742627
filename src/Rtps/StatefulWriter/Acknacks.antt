-- ===== src/Rtps/StatefulWriter/Acknacks.antt =====
-- How a writer answers an ACKNACK.
use dust_dds.Base.{◌≤◌, ℕ, ◌<◌, ◌≡◌, true, List, [], contains}
use dust_dds.Base.Returns.{Returns}
use dust_dds.Transport.Types.{Guid, GuidPrefix}
use dust_dds.Transport.History.{CacheChange}
use dust_dds.Rtps.Messages.Submessages.{Message, AckNackSubmessage}
use dust_dds.Rtps.ReaderProxy.{RtpsReaderProxy, sequence_numbers}
use dust_dds.Rtps.ReaderProxy.Unsent.{unsent}
use dust_dds.Rtps.StatefulWriter.Answering.{Settled}

-- The reader was sent all that it lacked.
pub record Served (changes : List CacheChange) (p : RtpsReaderProxy)
    (x : RtpsReaderProxy × List Message) : Type 0 where
  pub no_request : x.0.requested_changes ≡ []
  pub settled :
      (sn : ℕ)
      → contains sn p.requested_changes ≡ true
      → Settled changes p.first_relevant_sample_seq_num sn x.1
  pub all_sent : unsent x.0 changes ≡ []
  pub contiguous :
      (a : ℕ)
      → p.highest_sent_seq_num < a
      → ((b : ℕ)
          → p.highest_sent_seq_num < b
          → b ≤ a
          → contains b (sequence_numbers changes) ≡ true)
      → Settled changes p.first_relevant_sample_seq_num a x.1
  pub rest : x.0 ≡ record p {
    requested_changes = [];
    highest_sent_seq_num = x.0.highest_sent_seq_num;
    heartbeat_machine = x.0.heartbeat_machine;
  }

abbrev pub reader_of : GuidPrefix → AckNackSubmessage → Guid
reader_of prefix m = record { prefix = prefix; entity_id = m.reader_id }
