-- ===== src/VectorClock/Compare.antt =====
-- vector_clock.rs: the five comparisons of clocks, against the pointwise order.
use Prim.Native.Nat.{Ordering, compare}
use miri.Base.{
  inl, inr, Bool-cases, le→leb, not_ltb→le, ℕ, suc, ◌≡◌, refl, Bool, true, false, not, ◌&&◌, [],
  ◌∷◌, Option, none, some, leb, ltb, ◌≤◌, length, arith, if◌then◌else◌,
}
use miri.VectorClock.Timestamp.{VTimestamp, time}
use miri.VectorClock.{
  VClock, cmp_loop, cmp_zip, cmp_tail, partial_cmp, lt_loop, lt, any_gt, le, gt_loop, gt, any_lt,
  ge,
}
use miri.VectorClock.Canonical.{
  IsCanonical, IsCanonical-tail, pointwise_le, pointwise_le_nil, longer-not-le,
}

-- the ordering of two clocks from the two tests of which is below which
abbrev pub ordering : Bool → Bool → Option Ordering
ordering true true = some Ordering.eq
ordering true false = some Ordering.lt
ordering false true = some Ordering.gt
ordering false false = none

abbrev allows_le : Ordering → Bool
allows_le Ordering.gt = false
allows_le _ = true

abbrev allows_ge : Ordering → Bool
allows_ge Ordering.lt = false
allows_ge _ = true

finish : Ordering → Option Ordering → Option Ordering
unfolding cmp_tail
finish tail none = none
finish tail (some order) = cmp_tail tail order

strict : Option Bool → Bool
strict none = false
strict (some equal) = not equal

compare-suc : (m n : ℕ) → compare (suc m) (suc n) ≡ compare m n
compare-suc m n = ground arith

-- One round of the loop, in each of its states, over the result of the later rounds.
step_eq :
    (tail : Ordering) (rest : Option Ordering) (m n : ℕ) (p q : Bool)
    → finish tail rest ≡ ordering (allows_le (compare m n) && p) (allows_ge (compare m n) && q)
    → finish tail rest ≡ ordering (leb m n && p) (leb n m && q)
step_eq tail rest m n p q h = ground arith

step_lt :
    (tail : Ordering) (rest : Option Ordering) (m n : ℕ) (p : Bool)
    → finish tail rest ≡ ordering p false
    → finish tail (if ltb n m then none else rest) ≡ ordering (leb m n && p) false
unfolding finish
step_lt tail rest m n p h = elim (Bool-cases (ltb n m)) [
  | inl e ↦ ground arith
  | inr e ↦ rw (e, le→leb m n (not_ltb→le n m e)) h
]

step_gt :
    (tail : Ordering) (rest : Option Ordering) (m n : ℕ) (q : Bool)
    → finish tail rest ≡ ordering false q
    → finish tail (if ltb m n then none else rest) ≡ ordering false (leb n m && q)
unfolding finish
step_gt tail rest m n q h = elim (Bool-cases (ltb m n)) [
  | inl e ↦ ground arith
  | inr e ↦ rw (e, le→leb n m (not_ltb→le m n e)) h
]

tail_lt :
    (order : Ordering) (n : ℕ)
    → finish (compare 0 (suc n)) (some order)
      ≡ ordering (allows_le order && true) (allows_ge order && false)
unfolding finish
tail_lt order n = ground arith

tail_gt :
    (order : Ordering) (n : ℕ)
    → finish (compare (suc n) 0) (some order)
      ≡ ordering (allows_le order && false) (allows_ge order && true)
unfolding finish
tail_gt order n = ground arith

module _ {Span : Type 0} where
  abbrev Finished : Ordering → VClock Span → VClock Span → Type 0
  Finished order ls rs =
      finish (compare (length ls) (length rs)) (cmp_loop order ls rs)
      ≡ ordering (allows_le order && pointwise_le ls rs) (allows_ge order && pointwise_le rs ls)

  nil-pointwise_le : (bs : VClock Span) → pointwise_le [] bs ≡ true
  unfolding pointwise_le
  nil-pointwise_le bs = refl

  left_ends :
      (order : Ordering) (r : VTimestamp Span) (rs : VClock Span)
      → IsCanonical (r ∷ rs)
      → Finished order [] (r ∷ rs)
  unfolding cmp_loop
  left_ends order r rs d =
      rw (nil-pointwise_le, pointwise_le_nil r rs d) (tail_lt order (length rs))

  right_ends :
      (order : Ordering) (l : VTimestamp Span) (ls : VClock Span)
      → IsCanonical (l ∷ ls)
      → Finished order (l ∷ ls) []
  unfolding cmp_loop
  right_ends order l ls c =
      rw (nil-pointwise_le, pointwise_le_nil l ls c) (tail_gt order (length ls))

  cmp_loop_finish :
      (order : Ordering) (ls rs : VClock Span)
      → IsCanonical ls
      → IsCanonical rs
      → Finished order ls rs
  unfolding finish cmp_loop pointwise_le
  cmp_loop_finish Ordering.eq [] [] c d = refl
  cmp_loop_finish Ordering.lt [] [] c d = refl
  cmp_loop_finish Ordering.gt [] [] c d = refl
  cmp_loop_finish order [] (r ∷ rs) c d = left_ends order r rs d
  cmp_loop_finish order (l ∷ ls) [] c d = right_ends order l ls c
  cmp_loop_finish Ordering.eq (l ∷ ls) (r ∷ rs) c d = rw compare-suc (
      step_eq _ _ (time l) (time r) _ _ (
        cmp_loop_finish (compare (time l) (time r)) ls rs (IsCanonical-tail l ls c)
          (IsCanonical-tail r rs d)))
  cmp_loop_finish Ordering.lt (l ∷ ls) (r ∷ rs) c d = rw compare-suc (
      step_lt _ _ (time l) (time r) _
        (cmp_loop_finish Ordering.lt ls rs (IsCanonical-tail l ls c) (IsCanonical-tail r rs d)))
  cmp_loop_finish Ordering.gt (l ∷ ls) (r ∷ rs) c d = rw compare-suc (
      step_gt _ _ (time l) (time r) _
        (cmp_loop_finish Ordering.gt ls rs (IsCanonical-tail l ls c) (IsCanonical-tail r rs d)))

  finish-cmp_zip :
      (ls rs : VClock Span)
      → IsCanonical ls
      → IsCanonical rs
      → finish (compare (length ls) (length rs)) (cmp_zip ls rs)
        ≡ ordering (pointwise_le ls rs) (pointwise_le rs ls)
  unfolding cmp_zip
  finish-cmp_zip [] rs c d = cmp_loop_finish Ordering.eq [] rs c d
  finish-cmp_zip (l ∷ ls) [] c d = cmp_loop_finish Ordering.eq (l ∷ ls) [] c d
  finish-cmp_zip (l ∷ ls) (r ∷ rs) c d = cmp_loop_finish Ordering.eq (l ∷ ls) (r ∷ rs) c d

  -- For canonical clocks `partial_cmp` gives the ordering of the two as functions from indices to
  -- times: equal, less, greater, or none where neither is below the other.
  pub partial_cmp_lem :
      (a b : VClock Span)
      → IsCanonical a
      → IsCanonical b
      → partial_cmp a b ≡ ordering (pointwise_le a b) (pointwise_le b a)
  unfolding partial_cmp finish
  partial_cmp_lem a b c d = ground (arith, finish-cmp_zip a b c d)

  any_gt_lem :
      (ls rs : VClock Span)
      → leb (length ls) (length rs) ≡ true
      → not (any_gt ls rs) ≡ pointwise_le ls rs
  unfolding any_gt pointwise_le
  any_gt_lem [] rs h = refl
  any_gt_lem (l ∷ ls) [] h = ground arith
  any_gt_lem (l ∷ ls) (r ∷ rs) h = ground (arith, any_gt_lem ls rs)

  -- For canonical clocks `le` is the pointwise order.
  pub le_lem : (a b : VClock Span) → IsCanonical a → le a b ≡ pointwise_le a b
  unfolding le
  le_lem a b c = ground (arith, any_gt_lem a b, longer-not-le b a c)

  lt_loop_unequal :
      (ls rs : VClock Span)
      → length ls ≤ length rs
      → strict (lt_loop false ls rs) ≡ pointwise_le ls rs
  unfolding strict lt_loop pointwise_le
  lt_loop_unequal [] rs h = refl
  lt_loop_unequal (l ∷ ls) [] h = ground arith
  lt_loop_unequal (l ∷ ls) (r ∷ rs) h = ground (arith, lt_loop_unequal ls rs)

  lt_loop_equal :
      (ls rs : VClock Span)
      → length ls ≡ length rs
      → strict (lt_loop true ls rs) ≡ (pointwise_le ls rs && not (pointwise_le rs ls))
  unfolding strict lt_loop pointwise_le
  lt_loop_equal [] [] h = refl
  lt_loop_equal [] (r ∷ rs) h = ground arith
  lt_loop_equal (l ∷ ls) [] h = ground arith
  lt_loop_equal (l ∷ ls) (r ∷ rs) h = ground (arith, lt_loop_equal ls rs, lt_loop_unequal ls rs)

  -- For canonical clocks `lt` is the strict pointwise order.
  pub lt_lem :
      (a b : VClock Span)
      → IsCanonical a
      → IsCanonical b
      → lt a b ≡ (pointwise_le a b && not (pointwise_le b a))
  unfolding lt strict
  lt_lem a b c d =
      ground
        (arith, lt_loop_equal a b, lt_loop_unequal a b, longer-not-le a b d, longer-not-le b a c)

  gt_loop-flip : (e : Bool) (ls rs : VClock Span) → gt_loop e ls rs ≡ lt_loop e rs ls
  unfolding gt_loop lt_loop
  gt_loop-flip e [] [] = refl
  gt_loop-flip e [] (r ∷ rs) = refl
  gt_loop-flip e (l ∷ ls) [] = refl
  gt_loop-flip e (l ∷ ls) (r ∷ rs) = ground (arith, gt_loop-flip e ls rs, gt_loop-flip false ls rs)

  any_lt-flip : (ls rs : VClock Span) → any_lt ls rs ≡ any_gt rs ls
  unfolding any_lt any_gt
  any_lt-flip [] [] = refl
  any_lt-flip [] (r ∷ rs) = refl
  any_lt-flip (l ∷ ls) [] = refl
  any_lt-flip (l ∷ ls) (r ∷ rs) = ground (arith, any_lt-flip ls rs)

  -- `gt` and `ge`, which are written out, are `lt` and `le` the other way round, for all clocks.
  pub gt-ge_flip : (a b : VClock Span) → (gt a b ≡ lt b a) × (ge a b ≡ le b a)
  unfolding gt lt ge le
  gt-ge_flip a b = (
    ground (arith, gt_loop-flip true a b, gt_loop-flip false a b),
    ground (arith, any_lt-flip a b),
  )
