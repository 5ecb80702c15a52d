-- ===== src/Clock.antt =====
-- src/clock.rs: instants and the monotone clock, virtual or the host's. A `Duration` is its
-- nanoseconds, a `u128` a number below 2 ^ 128. The host's instants are a parameter, and what its
-- clock shows an argument. Sums that overflow panic, as they do in builds with overflow checks.
pub mod Deadlines
mod Tests
use miri.Base.{
  ℕ, ◌+◌, ◌-◌, ◌*◌, ◌^◌, Bool, ltb, if◌then◌else◌, Option, none, some, Outcome, panic, ret, ◌>>=◌,
  unwrap, min,
}

abbrev pub nanoseconds_per_basic_block : ℕ
nanoseconds_per_basic_block = 5000

abbrev pub u128_mod : ℕ
u128_mod = 2 ^ 128

-- one more than the nanoseconds of `Duration::MAX`
abbrev pub max_nanos : ℕ
max_nanos = 2 ^ 64 * 10 ^ 9

-- `Duration::from_nanos_u128` panics where the seconds do not fit in a `u64`
abbrev pub from_nanos : ℕ → Outcome ℕ
from_nanos n = if ltb n max_nanos then ret n else panic

abbrev pub checked_u128 : ℕ → Outcome ℕ
checked_u128 n = if ltb n u128_mod then ret n else panic

-- `StdInstant`
pub record HostInstants (Std : Type 0) : Type 0 where
  pub checked_add : Std → ℕ → Option Std
  pub duration_since : Std → Std → ℕ

pub data Instant (Std : Type 0) : Type 0 where
  host : Std → Instant Std
  virtual : ℕ → Instant Std

pub data MonotonicClock (Std : Type 0) : Type 0 where
  host_clock : Std → MonotonicClock Std
  virtual_clock : ℕ → MonotonicClock Std

abbrev pub an_hour : ℕ
an_hour = 3600 * 10 ^ 9

module _ {Std : Type 0} ⦃std : HostInstants Std⦄ where
  -- the second try is made where the first one fails
  abbrev pub or_an_hour : Std → Option Std → Outcome (Instant Std)
  or_an_hour i (some j) = ret (host j)
  or_an_hour i none = unwrap (std.checked_add i an_hour) >>= λ j. ret (host j)

  unfoldable pub add_lossy : Instant Std → ℕ → Outcome (Instant Std)
  add_lossy (host i) duration = or_an_hour i (std.checked_add i duration)
  add_lossy (virtual nanoseconds) duration =
      ret (virtual (min (nanoseconds + duration) (u128_mod - 1)))

  unfoldable pub duration_since : Instant Std → Instant Std → Outcome ℕ
  duration_since (host i) (host earlier) = ret (std.duration_since i earlier)
  duration_since (virtual nanoseconds) (virtual earlier) = from_nanos (nanoseconds - earlier)
  duration_since (host i) (virtual earlier) = panic
  duration_since (virtual nanoseconds) (host earlier) = panic

module _ {Std : Type 0} where
  -- with what the host's clock shows
  unfoldable pub clock_new : Bool → Std → MonotonicClock Std
  clock_new communicate shown = if communicate then host_clock shown else virtual_clock 0

  unfoldable pub tick : MonotonicClock Std → Outcome (MonotonicClock Std)
  tick (host_clock epoch) = ret (host_clock epoch)
  tick (virtual_clock nanoseconds) =
      checked_u128 (nanoseconds + nanoseconds_per_basic_block) >>= λ n. ret (virtual_clock n)

  unfoldable pub sleep : ℕ → MonotonicClock Std → Outcome (MonotonicClock Std)
  sleep duration (host_clock epoch) = ret (host_clock epoch)
  sleep duration (virtual_clock nanoseconds) =
      checked_u128 (nanoseconds + duration) >>= λ n. ret (virtual_clock n)

  unfoldable pub epoch : MonotonicClock Std → Instant Std
  epoch (host_clock start) = host start
  epoch (virtual_clock nanoseconds) = virtual 0

  unfoldable pub now : Std → MonotonicClock Std → Instant Std
  now shown (host_clock epoch) = host shown
  now shown (virtual_clock nanoseconds) = virtual nanoseconds
