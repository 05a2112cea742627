-- ===== src/Rtps/BehaviorTypes.antt =====
-- dds/src/rtps/behavior_types.rs: the duration of the RTPS behaviour module, whose fraction counts
-- 2 ^ -32 seconds.
use dust_dds.Base.{ℕ, ◌+◌, ◌-◌, ◌*◌, ◌/◌, ◌%◌, ◌^◌, ◌<◌, ◌≡◌, arith, ltb, if◌then◌else◌}

-- `seconds` is the bit pattern of an i32.
pub record Duration : Type 0 where
  pub seconds : ℕ
  pub fraction : ℕ

unfoldable pub from_millis : ℕ → Duration
from_millis millis = record {
  seconds = millis / 1000 % 2 ^ 32;
  fraction = millis % 1000 * 2 ^ 32 / 1000 % 2 ^ 32;
}

-- `as u64` extends the sign.
abbrev pub sign_extended : ℕ → ℕ
sign_extended x = if ltb x (2 ^ 31) then x else x + 2 ^ 64 - 2 ^ 32

-- `From<Duration> for std::time::Duration`, in nanoseconds. The f64 is exact (the product is below
-- 2 ^ 53 units of 2 ^ -23), and half a unit is added before rounding down.
unfoldable pub to_nanos : Duration → ℕ
to_nanos d =
    (sign_extended d.seconds * 1_000_000_000 % 2 ^ 64
      + (d.fraction * 1_000_000_000 + 2 ^ 31) / 2 ^ 32)
    % 2 ^ 64

seconds_part : (s : ℕ) → s < 2 ^ 31 → sign_extended s ≡ s
seconds_part s h = ground arith

-- A number of milliseconds below 1000 * 2 ^ 31 (some 68 years) keeps its exact value through the
-- binary fraction.
pub to_nanos-from_millis :
    (millis : ℕ) → millis < 1000 * 2 ^ 31 → to_nanos (from_millis millis) ≡ millis * 1_000_000
unfolding to_nanos from_millis
to_nanos-from_millis millis h = omega (arith, seconds_part (millis / 1000 % 2 ^ 32) (omega arith))
