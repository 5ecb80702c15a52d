-- ===== src/VectorClock/Canonical.antt =====
-- The invariant of `VClock` (its last timestamp is not 0, what `as_slice` asserts), and the order of
-- clocks as functions from indices to times, which the comparisons have to decide.
use miri.Base.{
  ℕ, zero, suc, ◌≤◌, ◌<◌, ◌≡◌, refl, ◌↔◌, Bool, true, false, ◌&&◌, [], ◌∷◌, leb, ◌==◌, length,
  arith,
}
use miri.VectorClock.Timestamp.{Spans, VTimestamp, time}
use miri.VectorClock.{VClock, at}

module _ {Span : Type 0} where
  abbrev pub IsCanonical : VClock Span → Type 0
  IsCanonical [] = Unit
  IsCanonical (t ∷ []) = 0 < time t
  IsCanonical (t ∷ u ∷ ts) = IsCanonical (u ∷ ts)

  -- `a` is at most `b` at every index, where a missing entry counts as 0
  unfoldable pub pointwise_le : VClock Span → VClock Span → Bool
  pointwise_le [] bs = true
  pointwise_le (a ∷ as') [] = (time a == 0) && pointwise_le as' []
  pointwise_le (a ∷ as') (b ∷ bs) = leb (time a) (time b) && pointwise_le as' bs

  pub IsCanonical-tail :
      (t : VTimestamp Span) (ts : VClock Span) → IsCanonical (t ∷ ts) → IsCanonical ts
  IsCanonical-tail t [] c = tt
  IsCanonical-tail t (u ∷ ts) c = c

  -- a canonical clock that is not empty is above the empty one
  pub pointwise_le_nil :
      (t : VTimestamp Span) (ts : VClock Span)
      → IsCanonical (t ∷ ts)
      → pointwise_le (t ∷ ts) [] ≡ false
  unfolding pointwise_le
  pointwise_le_nil t [] c = ground arith
  pointwise_le_nil t (u ∷ ts) c = ground (arith, pointwise_le_nil u ts c)

  -- a canonical clock is not below a shorter one
  pub longer-not-le :
      (a b : VClock Span) → IsCanonical b → length a < length b → pointwise_le b a ≡ false
  unfolding pointwise_le
  longer-not-le a [] c h = elim h [ ]
  longer-not-le [] (y ∷ ys) c h = pointwise_le_nil y ys c
  longer-not-le (x ∷ xs) (y ∷ ys) c h =
      ground (arith, longer-not-le xs ys (IsCanonical-tail y ys c) (omega arith))

module _ {Span : Type 0} ⦃s : Spans Span⦄ where
  -- The test is the order at every index.
  pub pointwise_le_iff :
      (a b : VClock Span) → (pointwise_le a b ≡ true) ↔ ((i : ℕ) → time (at a i) ≤ time (at b i))
  unfolding pointwise_le at
  pointwise_le_iff a b = (to a b, from a b)
    where
      to : (a b : VClock Span) → pointwise_le a b ≡ true → (i : ℕ) → time (at a i) ≤ time (at b i)
      to [] b h i = omega arith
      to (x ∷ xs) [] h zero = ground arith
      to (x ∷ xs) [] h (suc i) = ground (arith, to xs [] (ground arith) i)
      to (x ∷ xs) (y ∷ ys) h zero = ground arith
      to (x ∷ xs) (y ∷ ys) h (suc i) = to xs ys (ground arith) i

      from :
          (a b : VClock Span) → ((i : ℕ) → time (at a i) ≤ time (at b i)) → pointwise_le a b ≡ true
      from [] b h = refl
      from (x ∷ xs) [] h = ground (arith, h 0, from xs [] (λ i. h (suc i)))
      from (x ∷ xs) (y ∷ ys) h = ground (arith, h 0, from xs ys (λ i. h (suc i)))
