-- ===== src/Sync/Clocks.antt =====
-- What the synchronization objects use of the data-race detector's clocks, and the vector clocks of
-- vector_clock.rs as an instance.
use miri.Base.{ℕ, ◌≡◌, Bool, true, ◌&&◌, Outcome, ret, arith}
use miri.VectorClock.{VClock, join, increment_index}
use miri.VectorClock.Timestamp.{Spans}
use miri.VectorClock.Canonical.{pointwise_le, pointwise_le_iff}
use miri.VectorClock.Update.{join_least, at-increment_index}

-- `tick` is the increment of a thread's own clock, which panics where a timestamp overflows.
pub record Clocks (C : Type 0) : Type 0 where
  pub le : C → C → Bool
  pub join : C → C → C
  pub tick : ℕ → C → Outcome C
  pub le_refl : (a : C) → le a a ≡ true
  pub le_trans : (a b c : C) → le a b ≡ true → le b c ≡ true → le a c ≡ true
  pub join_left : (a b : C) → le a (join a b) ≡ true
  pub join_right : (a b : C) → le b (join a b) ≡ true
  pub tick_le : (t : ℕ) (a : C) {b : C} → tick t a ≡ ret b → le a b ≡ true

module _ {Span : Type 0} ⦃s : Spans Span⦄ (span : Span) where
  pub pointwise_refl : (a : VClock Span) → pointwise_le a a ≡ true
  pointwise_refl a = (pointwise_le_iff a a).1 (λ i. omega arith)

  pub pointwise_trans :
      (a b c : VClock Span)
      → pointwise_le a b ≡ true
      → pointwise_le b c ≡ true
      → pointwise_le a c ≡ true
  pointwise_trans a b c h k =
      (pointwise_le_iff a c).1
        (λ i. omega (arith, (pointwise_le_iff a b).0 h i, (pointwise_le_iff b c).0 k i))

  both : (a b : VClock Span) → (pointwise_le a (join a b) && pointwise_le b (join a b)) ≡ true
  both a b = rw (← join_least a b (join a b)) (pointwise_refl (join a b))

  pub le-join_left : (a b : VClock Span) → pointwise_le a (join a b) ≡ true
  le-join_left a b = ground (arith, both a b)

  pub le-join_right : (a b : VClock Span) → pointwise_le b (join a b) ≡ true
  le-join_right a b = ground (arith, both a b)

  pub tick_above :
      (t : ℕ) (a : VClock Span) {b : VClock Span}
      → increment_index a t span ≡ ret b
      → pointwise_le a b ≡ true
  tick_above t a {b} e =
      (pointwise_le_iff a b).1 (λ i. omega (arith, at-increment_index a t i span e))

  -- Vector clocks: each thread has an index of its own, so `t` stands for it.
  abbrev pub vector_clocks : Clocks (VClock Span)
  vector_clocks = record {
    le = pointwise_le;
    join = join;
    tick = λ t a. increment_index a t span;
    le_refl = pointwise_refl;
    le_trans = pointwise_trans;
    join_left = le-join_left;
    join_right = le-join_right;
    tick_le = tick_above;
  }
