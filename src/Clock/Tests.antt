-- ===== src/Clock/Tests.antt =====
-- Runs of the virtual clock, with host instants that are numbers.
use miri.Base.{ℕ, ◌+◌, ◌≡◌, ◌-◌, some, ret, Returns, arith}
use miri.Clock.{HostInstants, MonotonicClock, virtual_clock, add_lossy, duration_since, now}
use miri.Clock.Deadlines.{ticks, deadline_is_reached}

instance abbrev number_instants : HostInstants ℕ
number_instants = record {
  checked_add = λ i d. some (i + d);
  duration_since = λ i earlier. i - earlier;
}

abbrev seven : MonotonicClock ℕ
seven = virtual_clock 7

deadline_is_reached_example :
    Returns
      (add_lossy (now 0 seven) 9000)
      λ deadline. Returns (ticks 2 seven) λ c. duration_since deadline (now 1 c) ≡ ret 0
deadline_is_reached_example = deadline_is_reached 7 9000 2 0 1 (omega arith) (omega arith)
