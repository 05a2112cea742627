-- ===== src/Rtps/Messages/Types.antt =====
-- dds/src/rtps/messages/types.rs: the message's timestamp, whose fraction counts 2 ^ -32 seconds.
use dust_dds.Base.{ℕ, ◌+◌, ◌*◌, ◌/◌, ◌^◌, ◌<◌, ◌≡◌, arith}
use dust_dds.Transport.Types.{new_time}
use dust_dds.Transport.Types

-- A Count is the bit pattern of an i32.
abbrev pub Count : Type 0
Count = ℕ

abbrev pub FragmentNumber : Type 0
FragmentNumber = ℕ

abbrev pub ParameterId : Type 0
ParameterId = ℕ

pub record Time : Type 0 where
  pub seconds : ℕ
  pub fraction : ℕ

abbrev pub time_invalid : Time
time_invalid = record { seconds = 0xffff_ffff; fraction = 0xffff_ffff }

-- `(fraction as f64 / 2f64.powf(32.0) * 1_000_000_000.0).round() as u32`. The product is below
-- 2 ^ 53 units of 2 ^ -23, so the f64 is exact, and half a unit is added before rounding down.
pub fraction_to_nanosec : ℕ → ℕ
fraction_to_nanosec fraction = (fraction * 1_000_000_000 + 2 ^ 31) / 2 ^ 32

-- `(nanosec as f64 / 1_000_000_000.0 * 2f64.powf(32.0)).round() as u32`, for `nanosec` below
-- 10 ^ 9: the error of the f64 is at most 2 ^ -22, and the exact value is no nearer than that to
-- the middle between two integers.
pub nanosec_to_fraction : ℕ → ℕ
nanosec_to_fraction nanosec = (nanosec * 2 ^ 32 + 500_000_000) / 1_000_000_000

-- `From<transport::types::Time> for Time` and `From<Time> for transport::types::Time`.
unfoldable pub to_message_time : Types.Time → Time
unfolding nanosec_to_fraction
to_message_time t = record { seconds = t.sec; fraction = nanosec_to_fraction t.nanosec }

unfoldable pub from_message_time : Time → Types.Time
unfolding fraction_to_nanosec new_time
from_message_time t = new_time t.seconds (fraction_to_nanosec t.fraction)

nanosec_round_trip : (n : ℕ) → n < 1_000_000_000 → fraction_to_nanosec (nanosec_to_fraction n) ≡ n
unfolding fraction_to_nanosec nanosec_to_fraction
nanosec_round_trip n h = omega arith

-- A normal transport time survives the wire's fraction of a second.
pub from_message_time-to_message_time :
    (t : Types.Time)
    → t.sec < 2 ^ 32
    → t.nanosec < 1_000_000_000
    → from_message_time (to_message_time t) ≡ t
unfolding from_message_time to_message_time
from_message_time-to_message_time t hs hn = ground (arith, nanosec_round_trip t.nanosec hn)
