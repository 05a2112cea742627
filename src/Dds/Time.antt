-- ===== src/Dds/Time.antt =====
-- dds/src/dds/infrastructure/time.rs. `sec` is the bit pattern of an i32; its arithmetic wraps.
use native.Mathlib.Decide.{ℕ_discrete}
use dust_dds.Base.{
  ℕ, ◌+◌, ◌-◌, ◌/◌, ◌%◌, ◌^◌, ◌≡◌, arith, Bool, true, false, not, ltb, leb, i32_lt, if◌then◌else◌,
}
use dust_dds.Transport.Types

pub record Duration : Type 0 where
  pub sec : ℕ
  pub nanosec : ℕ

pub data DurationKind : Type 0 where
  finite : Duration → DurationKind
  infinite : DurationKind

pub record Time : Type 0 where
  pub sec : ℕ
  pub nanosec : ℕ

unfoldable pub DurationKind-discrete : Discrete DurationKind
unfolding ℕ_discrete
DurationKind-discrete = hlevel ℕ_discrete

-- `Duration::new` and `Time::new` carry whole seconds over.
unfoldable pub new_duration : ℕ → ℕ → Duration
new_duration sec nanosec = record {
  sec = (sec + nanosec / 1_000_000_000) % 2 ^ 32;
  nanosec = nanosec % 1_000_000_000;
}

unfoldable pub new : ℕ → ℕ → Time
new sec nanosec = record {
  sec = (sec + nanosec / 1_000_000_000) % 2 ^ 32;
  nanosec = nanosec % 1_000_000_000;
}

-- `From<transport::types::Time>`, and back.
unfoldable pub from_transport : Types.Time → Time
unfolding new
from_transport t = new t.sec t.nanosec

unfoldable pub to_transport : Time → Types.Time
unfolding Types.new_time
to_transport t = Types.new_time t.sec t.nanosec

-- `Duration - Duration`, `Duration + Duration` and `Time - Time`.
unfoldable pub duration_sub : Duration → Duration → Duration
duration_sub a b =
    if ltb a.nanosec b.nanosec
    then record {
      sec = (a.sec + 2 ^ 33 - b.sec - 1) % 2 ^ 32;
      nanosec = (1_000_000_000 + a.nanosec - b.nanosec) % 2 ^ 32;
    }
    else record { sec = (a.sec + 2 ^ 33 - b.sec) % 2 ^ 32; nanosec = a.nanosec - b.nanosec }

unfoldable pub duration_add : Duration → Duration → Duration
duration_add a b = record {
  sec = (a.sec + b.sec + (a.nanosec + b.nanosec) / 1_000_000_000) % 2 ^ 32;
  nanosec = (a.nanosec + b.nanosec) % 1_000_000_000;
}

unfoldable pub time_sub : Time → Time → Duration
unfolding duration_sub new_duration
time_sub a b = duration_sub (new_duration a.sec a.nanosec) (new_duration b.sec b.nanosec)

-- The derived order: the seconds, then the nanoseconds.
unfoldable pub pair_le : ℕ → ℕ → ℕ → ℕ → Bool
pair_le sec nanosec sec' nanosec' =
    if i32_lt sec sec' then true else if i32_lt sec' sec then false else leb nanosec nanosec'

unfoldable pub time_le : Time → Time → Bool
unfolding pair_le
time_le a b = pair_le a.sec a.nanosec b.sec b.nanosec

unfoldable pub duration_le : Duration → Duration → Bool
unfolding pair_le
duration_le a b = pair_le a.sec a.nanosec b.sec b.nanosec

-- `PartialOrd for DurationKind`; `a < b` is `not (b <= a)`, as the order is total.
unfoldable pub duration_kind_le : DurationKind → DurationKind → Bool
unfolding duration_le
duration_kind_le (finite a) (finite b) = duration_le a b
duration_kind_le (finite a) infinite = true
duration_kind_le infinite (finite b) = false
duration_kind_le infinite infinite = true

abbrev pub duration_kind_lt : DurationKind → DurationKind → Bool
duration_kind_lt a b = not (duration_kind_le b a)

pub time_le-total : (a b : Time) → time_le a b ≡ false → time_le b a ≡ true
unfolding time_le pair_le
time_le-total a b h = ground arith

pub time_le_trans : (a b c : Time) → time_le a b ≡ true → time_le b c ≡ true → time_le a c ≡ true
unfolding time_le pair_le
time_le_trans a b c h k = ground arith
