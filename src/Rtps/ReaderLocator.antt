-- ===== src/Rtps/ReaderLocator.antt =====
-- dds/src/rtps/reader_locator.rs: a destination of the stateless writer.
use dust_dds.Base.{Bool, Option, List, ltb, retain, minimum}
use dust_dds.Transport.Types.{Locator, SequenceNumber}
use dust_dds.Transport.History.{CacheChange}
use dust_dds.Rtps.ReaderProxy.{sequence_numbers}

pub record RtpsReaderLocator : Type 0 where
  pub locator : Locator
  pub expects_inline_qos : Bool
  pub highest_sent_change_sn : SequenceNumber

abbrev pub new : Locator → Bool → RtpsReaderLocator
new locator expects_inline_qos = record {
  locator = locator;
  expects_inline_qos = expects_inline_qos;
  highest_sent_change_sn = 0;
}

unfoldable pub next_unsent_change : RtpsReaderLocator → List CacheChange → Option SequenceNumber
next_unsent_change r writer_history_cache =
    minimum (retain (λ sn. ltb r.highest_sent_change_sn sn) (sequence_numbers writer_history_cache))

abbrev pub set_highest_sent_change_sn : RtpsReaderLocator → SequenceNumber → RtpsReaderLocator
set_highest_sent_change_sn r highest_sent_change_sn = record r {
  highest_sent_change_sn = highest_sent_change_sn;
}
