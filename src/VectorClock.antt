-- ===== src/VectorClock.antt =====
-- src/concurrency/vector_clock.rs: timestamps and vector clocks of the data-race detector. `Span` is
-- the compiler's type, a parameter here; a `u32` is a number below 2 ^ 32. A `VectorIdx` is its
-- index. `&x[..]` and `clone` leave no trace.
pub mod Timestamp
pub mod Canonical
pub mod Compare
pub mod Update
mod Tests
use miri.Base.{
  Bool, true, false, not, ◌&&◌, Option, none, some, Outcome, panic, ret, ◌>>=◌, ◌>>◌, assert,
  if◌then◌else◌, ℕ, zero, suc, ◌+◌, ◌-◌, List, [], ◌∷◌, ltb, leb, ◌==◌, length, ◌++◌,
}
use Prim.Native.Nat.{Ordering, compare}
use miri.VectorClock.Timestamp.{Spans, VTimestamp, time, set_time, timestamp_zero, checked_u32}

-- `VClock(SmallVec<[VTimestamp; 4]>)`, where the timestamps are kept being of no account
abbrev pub VClock : Type 0 → Type 0
VClock Span = List (VTimestamp Span)

module _ {Span : Type 0} ⦃s : Spans Span⦄ where
  -- `vec![ZERO; n]`, then the timestamp
  zeros_then : ℕ → VTimestamp Span → VClock Span
  zeros_then zero t = t ∷ []
  zeros_then (suc n) t = timestamp_zero ∷ zeros_then n t

  unfoldable pub new_with_index : ℕ → VTimestamp Span → VClock Span
  unfolding zeros_then
  new_with_index index t = if time t == 0 then [] else zeros_then index t

  -- `Index::index`: the timestamp there, or zero beyond the end
  unfoldable pub at : VClock Span → ℕ → VTimestamp Span
  at [] i = timestamp_zero
  at (t ∷ ts) zero = t
  at (t ∷ ts) (suc i) = at ts i

  -- `get_mut_with_min_len(i + 1)`, then an assignment to element `i`
  unfoldable pub set_growing : VClock Span → ℕ → (VTimestamp Span → VTimestamp Span) → VClock Span
  set_growing [] zero f = f timestamp_zero ∷ []
  set_growing [] (suc i) f = timestamp_zero ∷ set_growing [] i f
  set_growing (t ∷ ts) zero f = f t ∷ ts
  set_growing (t ∷ ts) (suc i) f = t ∷ set_growing ts i f

  -- `index_mut`, which unwraps, then an operation on the element
  unfoldable pub index_mut :
      VClock Span → ℕ → (VTimestamp Span → Outcome (VTimestamp Span)) → Outcome (VClock Span)
  index_mut [] i f = panic
  index_mut (t ∷ ts) zero f = f t >>= λ u. ret (u ∷ ts)
  index_mut (t ∷ ts) (suc i) f = index_mut ts i f >>= λ us. ret (t ∷ us)

  -- the element is read before it is assigned, and the checked additions may panic
  unfoldable pub increment_index : VClock Span → ℕ → Span → Outcome (VClock Span)
  unfolding at set_growing set_time
  increment_index c idx current_span = do
    next ← checked_u32 (time (at c idx) + 1)
    t ← set_time (at c idx) next
    ret (
        set_growing c idx
          λ _. if s.is_dummy current_span then t else record t { span = current_span })

  -- `*l = r.max(*l)`: `Ord::max` keeps its argument `*l` where the times are equal
  join_entry : VTimestamp Span → VTimestamp Span → VTimestamp Span
  join_entry l r =
      let m = if ltb (time l) (time r) then r else l in
      record m { span = s.substitute_dummy (s.substitute_dummy m.span r.span) l.span }

  unfoldable pub join : VClock Span → VClock Span → VClock Span
  unfolding join_entry
  join ls [] = ls
  join [] (r ∷ rs) = join_entry timestamp_zero r ∷ join [] rs
  join (l ∷ ls) (r ∷ rs) = join_entry l r ∷ join ls rs

  unfoldable pub set_at_index : VClock Span → VClock Span → ℕ → Outcome (VClock Span)
  unfolding at set_growing
  set_at_index c other idx =
      let new = at other idx in
      if time new == 0 && leb (length c) idx
      then ret c
      else (assert (leb (time (at c idx)) (time new))
          >> ret (
              set_growing c idx
                λ prev. record new { span = s.substitute_dummy new.span prev.span }))

  unfoldable pub set_zero_vector : VClock Span → VClock Span
  set_zero_vector c = []

-- the test of the trailing elements, by `l_len.cmp(&r_len)`
cmp_tail : Ordering → Ordering → Option Ordering
cmp_tail Ordering.eq order = some order
cmp_tail Ordering.lt Ordering.gt = none
cmp_tail Ordering.lt _ = some Ordering.lt
cmp_tail Ordering.gt Ordering.lt = none
cmp_tail Ordering.gt _ = some Ordering.gt

module _ {Span : Type 0} where
  -- The loop of `partial_cmp` over the zipped entries, after the first: `none` is `return None`.
  cmp_loop : Ordering → VClock Span → VClock Span → Option Ordering
  cmp_loop order [] rs = some order
  cmp_loop order (l ∷ ls) [] = some order
  cmp_loop Ordering.eq (l ∷ ls) (r ∷ rs) = cmp_loop (compare (time l) (time r)) ls rs
  cmp_loop Ordering.lt (l ∷ ls) (r ∷ rs) =
      let rest = cmp_loop Ordering.lt ls rs in if ltb (time r) (time l) then none else rest
  cmp_loop Ordering.gt (l ∷ ls) (r ∷ rs) =
      let rest = cmp_loop Ordering.gt ls rs in if ltb (time l) (time r) then none else rest

  -- the first entries, and the loop over the others
  cmp_zip : VClock Span → VClock Span → Option Ordering
  unfolding cmp_loop
  cmp_zip (l ∷ ls) (r ∷ rs) = cmp_loop (compare (time l) (time r)) ls rs
  cmp_zip _ _ = some Ordering.eq

  unfoldable pub partial_cmp : VClock Span → VClock Span → Option Ordering
  unfolding cmp_zip cmp_tail
  partial_cmp lhs rhs = elim (cmp_zip lhs rhs) [
    | none ↦ none
    | some order ↦ cmp_tail (compare (length lhs) (length rhs)) order
  ]

  -- the loop of `lt`: `none` is `return false`, else the value of `equal`
  lt_loop : Bool → VClock Span → VClock Span → Option Bool
  lt_loop equal [] rs = some equal
  lt_loop equal (l ∷ ls) [] = some equal
  lt_loop equal (l ∷ ls) (r ∷ rs) =
      let rest = lt_loop (if ltb (time l) (time r) then false else equal) ls rs in
      if ltb (time r) (time l) then none else rest

  unfoldable pub lt : VClock Span → VClock Span → Bool
  unfolding lt_loop
  lt lhs rhs =
      if leb (length lhs) (length rhs)
      then elim (lt_loop (length lhs == length rhs) lhs rhs) [
        | none ↦ false
        | some equal ↦ not equal
      ]
      else false

  -- `any` over the zipped entries
  any_gt : VClock Span → VClock Span → Bool
  any_gt [] rs = false
  any_gt (l ∷ ls) [] = false
  any_gt (l ∷ ls) (r ∷ rs) = let rest = any_gt ls rs in if ltb (time r) (time l) then true else rest

  unfoldable pub le : VClock Span → VClock Span → Bool
  unfolding any_gt
  le lhs rhs = if leb (length lhs) (length rhs) then not (any_gt lhs rhs) else false

  -- the loop of `gt`, as that of `lt`
  gt_loop : Bool → VClock Span → VClock Span → Option Bool
  gt_loop equal [] rs = some equal
  gt_loop equal (l ∷ ls) [] = some equal
  gt_loop equal (l ∷ ls) (r ∷ rs) =
      let rest = gt_loop (if ltb (time r) (time l) then false else equal) ls rs in
      if ltb (time l) (time r) then none else rest

  unfoldable pub gt : VClock Span → VClock Span → Bool
  unfolding gt_loop
  gt lhs rhs =
      if leb (length rhs) (length lhs)
      then elim (gt_loop (length lhs == length rhs) lhs rhs) [
        | none ↦ false
        | some equal ↦ not equal
      ]
      else false

  any_lt : VClock Span → VClock Span → Bool
  any_lt [] rs = false
  any_lt (l ∷ ls) [] = false
  any_lt (l ∷ ls) (r ∷ rs) = let rest = any_lt ls rs in if ltb (time l) (time r) then true else rest

  unfoldable pub ge : VClock Span → VClock Span → Bool
  unfolding any_lt
  ge lhs rhs = if leb (length rhs) (length lhs) then not (any_lt lhs rhs) else false
