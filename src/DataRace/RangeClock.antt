-- ===== src/DataRace/RangeClock.antt =====
-- data_race.rs: what `sync_clock` gives for a range of an allocation.
use miri.Base.{
  ℕ, ◌+◌, ◌≤◌, ◌<◌, ◌≡◌, ap, ◌∙◌, Option, none, some, [], ◌∷◌, Returns, map_Returns, Bool-cases,
  inl, inr, arith, All,
}
use mathlib.Core.Option.{some-injective}
use miri.VectorClock.Timestamp.{Spans}
use miri.VectorClock.{VClock, join}
use miri.VectorClock.Update.{at-join}
use miri.DedupRangeMap.{u64_mod, iter}
use miri.DedupRangeMap.Lookup.{covers, lookup, IsContiguous}
use miri.DedupRangeMap.Iter.{Overlaps, iter_lem}
use miri.DataRace.Cell.{AtomicMemoryCellClocks, MemoryCellClocks}
use miri.DataRace.History.{tm, Below}
use miri.DataRace.Ranges.{Ranges, join_atomic, join_sync, sync_clock}

module _ {Span : Type 0} ⦃s : Spans Span⦄ where
  join-Below : (a b : VClock Span) → Below a (join a b) × Below b (join a b)
  join-Below a b = (λ i. omega (arith, at-join a b i), λ i. omega (arith, at-join a b i))

  join_atomic-Below :
      (clock : VClock Span) (o : Option (AtomicMemoryCellClocks Span))
      → Below clock (join_atomic clock o)
  join_atomic-Below clock none = λ i. omega arith
  join_atomic-Below clock (some a) = (join-Below clock a.sync_vector).0

  join_sync-Below : (clock : VClock Span) (v : Ranges Span) → Below clock (join_sync clock v)
  unfolding join_sync
  join_sync-Below clock [] = λ i. omega arith
  join_sync-Below clock (e ∷ v) = λ i. omega (
    arith,
    join_atomic-Below clock (MemoryCellClocks.atomic_ops e.value) i,
    join_sync-Below (join_atomic clock (MemoryCellClocks.atomic_ops e.value)) v i,
  )

  -- the clock that a store releases to a byte is in the result
  join_sync-lookup :
      (clock : VClock Span) (v : Ranges Span) (o : ℕ) (m : MemoryCellClocks Span)
      (a : AtomicMemoryCellClocks Span)
      → lookup (λ x. x) v o ≡ some m
      → m.atomic_ops ≡ some a
      → Below a.sync_vector (join_sync clock v)
  unfolding join_sync
  join_sync-lookup clock [] o m a l q = cc
  join_sync-lookup clock (e ∷ v) o m a l q = elim (Bool-cases (covers e o)) [
    | inl y ↦
        let p : MemoryCellClocks.atomic_ops e.value ≡ some a =
          ap (λ x. MemoryCellClocks.atomic_ops x) (some-injective _ _ (rw y at l)) ∙ q in
        λ i. omega (
          arith,
          (join-Below clock a.sync_vector).1 i,
          join_sync-Below (join clock a.sync_vector) v i,
          ap (λ r. tm (join_sync (join_atomic clock r) v) i) p,
        )
    | inr d ↦
        join_sync-lookup (join_atomic clock (MemoryCellClocks.atomic_ops e.value)) v o m a
          (rw d at l) q
  ]

  -- In an allocation whose cells cover it without gaps and whose length fits `u64`, `sync_clock` of
  -- a range within it returns. The clock it gives has, for each byte of the range, everything in the
  -- synchronization clock of the byte's cell.
  pub sync_clock_lem :
      (ranges : Ranges Span) (n start size : ℕ)
      → IsContiguous 0 ranges n
      → start + size ≤ n
      → n < u64_mod
      → Returns (sync_clock ranges start size) (λ c.
        (o : ℕ) (m : MemoryCellClocks Span) (a : AtomicMemoryCellClocks Span)
        → start ≤ o
        → o < start + size
        → lookup (λ x. x) ranges o ≡ some m
        → m.atomic_ops ≡ some a
        → Below a.sync_vector c)
  unfolding sync_clock
  sync_clock_lem ranges n start size c l b =
      map_Returns
        (λ w.
          All (Overlaps start (start + size)) w
          × ((o : ℕ)
              → start ≤ o
              → o < start + size
              → lookup (λ x. x) w o ≡ lookup (λ x. x) ranges o))
        (λ k.
          (o : ℕ) (m : MemoryCellClocks Span) (a : AtomicMemoryCellClocks Span)
          → start ≤ o
          → o < start + size
          → lookup (λ x. x) ranges o ≡ some m
          → m.atomic_ops ≡ some a
          → Below a.sync_vector k)
        (join_sync []) (iter ranges start size) (iter_lem (λ x. x) ranges n start size c l b)
        (λ w i o m a lo hi g q. join_sync-lookup [] w o m a (i.1 o lo hi ∙ g) q)
