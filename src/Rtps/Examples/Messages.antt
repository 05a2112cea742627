-- ===== src/Rtps/Examples/Messages.antt =====
-- The theorems on submessages and proxies at concrete inputs.
use dust_dds.Base.{◌*◌, ◌≤◌, ◌≡◌, arith, none, [], ◌∷◌, contains, ret}
use dust_dds.Base.Increasing.{Increasing}
use dust_dds.Transport.Types.{SequenceNumber, guidprefix_unknown, not_alive_disposed}
use dust_dds.Rtps.BehaviorTypes.{from_millis, to_nanos, to_nanos-from_millis}
use dust_dds.Rtps.Messages.Types.{
  from_message_time, to_message_time, from_message_time-to_message_time,
}
use dust_dds.Rtps.SequenceNumberSet.{SequenceNumberSet, elements, new}
use dust_dds.Rtps.SequenceNumberSet.Laws.{elements-new}
use dust_dds.Rtps.CacheChange.{as_data_submessage, try_from_data_submessage, ok}
use dust_dds.Rtps.CacheChange.Laws.{try_from_data_submessage-as_data_submessage}
use dust_dds.Rtps.Examples.Fixture.{writer_id, reader_id, change}

elements-new_example :
    (s : SequenceNumberSet) × (new 7 (9 ∷ 262 ∷ 7 ∷ 9 ∷ []) ≡ ret s)
    × (s.base ≡ 7)
    × (s.num_bits ≤ 256)
    × Increasing 7 (elements s)
    × ((a : SequenceNumber) → contains a (elements s) ≡ contains a (9 ∷ 262 ∷ 7 ∷ 9 ∷ []))
elements-new_example = elements-new 7 (9 ∷ 262 ∷ 7 ∷ 9 ∷ []) (
  (omega arith, omega arith),
  ((omega arith, omega arith), ((omega arith, omega arith), ((omega arith, omega arith), tt))),
)

try_from_data_submessage-as_data_submessage_example :
    try_from_data_submessage
      (as_data_submessage
        (record (change 4 (8 ∷ 9 ∷ [])) { kind = not_alive_disposed })
        reader_id
        writer_id)
      guidprefix_unknown
      none
    ≡ ok (record (change 4 (8 ∷ 9 ∷ [])) { kind = not_alive_disposed })
try_from_data_submessage-as_data_submessage_example =
    try_from_data_submessage-as_data_submessage
      (record (change 4 (8 ∷ 9 ∷ [])) { kind = not_alive_disposed }) reader_id writer_id
      guidprefix_unknown none tt

to_nanos-from_millis_example : to_nanos (from_millis 200) ≡ 200 * 1_000_000
to_nanos-from_millis_example = to_nanos-from_millis 200 (omega arith)

from_message_time-to_message_time_example :
    from_message_time (to_message_time (record { sec = 5; nanosec = 999_999_999 }))
    ≡ record { sec = 5; nanosec = 999_999_999 }
from_message_time-to_message_time_example =
    from_message_time-to_message_time (record { sec = 5; nanosec = 999_999_999 }) (omega arith)
      (omega arith)
