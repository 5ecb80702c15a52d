-- ===== src/Clock/Deadlines.antt =====
-- clock.rs: deadlines on the virtual clock.
use miri.Base.{
  ℕ, ◌+◌, ◌-◌, ◌*◌, ◌≤◌, ◌<◌, ◌≡◌, refl, ap, ◌∙◌, lt→ltb, le→not_ltb, Outcome, panic, ret, ◌>>=◌,
  Returns, arith, zero, suc, min,
}
use miri.Clock.{
  nanoseconds_per_basic_block, u128_mod, max_nanos, from_nanos, HostInstants, MonotonicClock,
  virtual_clock, add_lossy, duration_since, tick, sleep, now,
}

from_nanos-ret : (m d : ℕ) → m ≡ d → d < max_nanos → from_nanos m ≡ ret d
from_nanos-ret m d e b = rw (e, lt→ltb d max_nanos b) refl

module _ {Std : Type 0} ⦃std : HostInstants Std⦄ where
  -- one tick for each basic block
  unfoldable pub ticks : ℕ → MonotonicClock Std → Outcome (MonotonicClock Std)
  unfolding tick
  ticks zero c = ret c
  ticks (suc k) c = tick c >>= ticks k

  ticks_lem :
      (k n : ℕ)
      → n + nanoseconds_per_basic_block * k < u128_mod
      → let c : MonotonicClock Std = virtual_clock n in
        ticks k c ≡ ret (virtual_clock (n + nanoseconds_per_basic_block * k))
  unfolding ticks tick
  ticks_lem zero n b = ap (λ m. ret (virtual_clock m)) (omega arith)
  ticks_lem (suc k) n b =
      rw (lt→ltb (n + nanoseconds_per_basic_block) u128_mod (omega (arith, b))) (
        ticks_lem k (n + nanoseconds_per_basic_block) (omega (arith, b))
        ∙ ap (λ m. ret (virtual_clock m)) (omega arith))

  -- Sleeping on the virtual clock lets exactly the duration pass; it panics exactly where the time
  -- does not fit in 128 bits.
  pub sleep_lem :
      (n duration : ℕ) (shown shown' : Std)
      → duration < max_nanos
      → (n + duration < u128_mod
          → Returns
              (sleep duration (virtual_clock n))
              λ c. duration_since (now shown' c) (now shown (virtual_clock n)) ≡ ret duration)
        × (u128_mod ≤ n + duration
            → let c : MonotonicClock Std = virtual_clock n in sleep duration c ≡ panic)
  unfolding sleep duration_since now
  sleep_lem n duration shown shown' b = (
    (λ h.
        rw (lt→ltb (n + duration) u128_mod h)
          (from_nanos-ret (n + duration - n) duration (omega arith) b)),
    (λ h. rw (le→not_ltb (n + duration) u128_mod h) refl),
  )

  -- A deadline a duration from now on the virtual clock is reached: after as many ticks as make up the
  -- duration, if the time fits in 128 bits then, none of the duration is left.
  pub deadline_is_reached :
      (n duration k : ℕ) (shown shown' : Std)
      → duration ≤ nanoseconds_per_basic_block * k
      → n + nanoseconds_per_basic_block * k < u128_mod
      → Returns (add_lossy (now shown (virtual_clock n)) duration) λ deadline.
        Returns (ticks k (virtual_clock n)) λ c. duration_since deadline (now shown' c) ≡ ret 0
  unfolding add_lossy duration_since now
  deadline_is_reached n duration k shown shown' b h = rw (ticks_lem k n h) (
      from_nanos-ret (min (n + duration) (u128_mod - 1) - (n + nanoseconds_per_basic_block * k)) 0
        (omega (arith, b)) (omega arith))
