-- ===== src/DataRace/Run.antt =====
-- data_race.rs: the checks of one cell, one after the other.
use miri.Base.{ℕ, ◌^◌, ◌<◌, ◌≡◌, refl, Option, none, some, List, [], ◌∷◌, Bool-cases, inl, inr}
use miri.VectorClock.Timestamp.{Spans, VTimestamp, time}
use miri.VectorClock.{VClock}
use miri.DataRace.Orderings.{
  allocate, read_is_relaxed, write_is_relaxed, Checked, panicked, data_race, ok, ◌>>=◌,
}
use miri.DataRace.Cell.{MemoryCellClocks, AtomicMemoryCellClocks, ThreadClockSet, State, cell_new}
use miri.DataRace.Checks.{
  set_sync, load_relaxed, load_acquire, store_relaxed, store_release, atomic_load, atomic_store,
}
use miri.DataRace.History.{Kind, tm, Event, Ordered, Tracks}
use miri.DataRace.Detect.{Verdict, Causal, read_event, non_atomic_read_detect_lem}
use miri.DataRace.Write.{write_event, written-Tracks, non_atomic_write_detect_lem}
use miri.DataRace.Parts.{atomic_event, sync_of, same_vectors-Tracks}
use miri.DataRace.Atomic.{
  CellVerdict, AtomicVerdict, HasSync, atomic_read_detect_lem, atomic_write_detect_lem,
}
use miri.DataRace.Operations.{
  Operation, Access, cell_of, kind_of, event_of, detect, run, AllCausal, RunVerdict, na_read,
  na_write, load, store,
}

module _ {Span : Type 0} ⦃s : Spans Span⦄ where
  cell_of-Verdict :
      (size : ℕ) (h : List (Event Span)) (e : Event Span) (o : Checked (State Span))
      → Verdict size h e o
      → CellVerdict size h e (cell_of o)
  cell_of-Verdict size h e panicked v = v
  cell_of-Verdict size h e data_race v = v
  cell_of-Verdict size h e (ok (m, th)) v = (v.0, v.1)

  -- what a load does to the thread's clocks is of no matter for the cell
  loaded-Verdict :
      (size : ℕ) (h : List (Event Span)) (e : Event Span) (sync : VClock Span)
      (f : MemoryCellClocks Span → ThreadClockSet Span) (o : Checked (MemoryCellClocks Span))
      → AtomicVerdict sync size h e o
      → CellVerdict size h e (cell_of (o >>= λ m. ok (m, f m)))
  loaded-Verdict size h e sync f panicked v = v
  loaded-Verdict size h e sync f data_race v = v
  loaded-Verdict size h e sync f (ok m) v = (v.0, v.1)

  set_sync-Tracks :
      (size : ℕ) (h : List (Event Span)) (e : Event Span) (sync : VClock Span)
      (f : VClock Span → VClock Span) (m : MemoryCellClocks Span)
      → (o : Option (AtomicMemoryCellClocks Span)) → Ordered e.kind h e.clock
      → Tracks size (record m { atomic_ops = o }) (e ∷ h)
      → HasSync sync o
      → CellVerdict size h e (set_sync f (record m { atomic_ops = o }))
  unfolding set_sync
  set_sync-Tracks size h e sync f m none ord t a = a
  set_sync-Tracks size h e sync f m (some atomic) ord t a = (
    ord,
    same_vectors-Tracks size m (e ∷ h) (some atomic)
        (some (record atomic { sync_vector = f atomic.sync_vector })) refl refl t.one_size t,
  )

  pub stored-Verdict :
      (size : ℕ) (h : List (Event Span)) (e : Event Span) (sync : VClock Span)
      (f : VClock Span → VClock Span) (o : Checked (MemoryCellClocks Span))
      → AtomicVerdict sync size h e o
      → CellVerdict size h e (o >>= set_sync f)
  stored-Verdict size h e sync f panicked v = v
  stored-Verdict size h e sync f data_race v = v
  stored-Verdict size h e sync f (ok m) v =
      set_sync-Tracks size h e sync f m m.atomic_ops (v.0) (v.1) (v.2)

  with_thread-Verdict :
      (size : ℕ) (h : List (Event Span)) (e : Event Span) (th : ThreadClockSet Span)
      (o : Checked (MemoryCellClocks Span))
      → CellVerdict size h e o
      → CellVerdict size h e (cell_of (o >>= λ m. ok (m, th)))
  with_thread-Verdict size h e th panicked v = v
  with_thread-Verdict size h e th data_race v = v
  with_thread-Verdict size h e th (ok m) v = v

  detect-Verdict :
      (size : ℕ) (h : List (Event Span)) (m : MemoryCellClocks Span) (index : ℕ)
      (th : ThreadClockSet Span) (op : Operation Span)
      → Tracks size m h
      → Causal h index th.clock
      → (0 < tm th.clock index) × (tm th.clock index < 2 ^ 31)
      → CellVerdict size h (atomic_event (kind_of op) index th.clock) (detect size m index th op)
  unfolding detect atomic_load load_relaxed load_acquire atomic_store store_relaxed store_release
  detect-Verdict size h m index th (na_read read_type span) t c b =
      cell_of-Verdict size h (read_event index th.clock) _
        (non_atomic_read_detect_lem size h m th index read_type span t c (b.0) (b.1))
  detect-Verdict size h m index th (na_write write_type span) t c b =
      cell_of-Verdict size h (write_event index th.clock) _
        (non_atomic_write_detect_lem size h m th index write_type span t c (b.0))
  detect-Verdict size h m index th (load atomic sync_clock) t c b =
      elim (Bool-cases (read_is_relaxed atomic)) [
        | inl r ↦ rw (r) (
            loaded-Verdict size h (atomic_event Kind.atomic_read index th.clock)
              (sync_of size m.atomic_ops) _ _ (atomic_read_detect_lem size h m th.clock index t c))
        | inr r ↦ rw (r) (
            loaded-Verdict size h (atomic_event Kind.atomic_read index th.clock)
              (sync_of size m.atomic_ops) _ _ (atomic_read_detect_lem size h m th.clock index t c))
      ]
  detect-Verdict size h m index th (store atomic) t c b =
      elim (Bool-cases (write_is_relaxed atomic)) [
        | inl r ↦ rw (r) (
            with_thread-Verdict size h (atomic_event Kind.atomic_write index th.clock) th _ (
              stored-Verdict size h (atomic_event Kind.atomic_write index th.clock)
                (sync_of size m.atomic_ops) _ _
                (atomic_write_detect_lem size h m th.clock index t c)))
        | inr r ↦ rw (r) (
            with_thread-Verdict size h (atomic_event Kind.atomic_write index th.clock) th _ (
              stored-Verdict size h (atomic_event Kind.atomic_write index th.clock)
                (sync_of size m.atomic_ops) _ _
                (atomic_write_detect_lem size h m th.clock index t c)))
      ]

  then_rest :
      (size : ℕ) (h : List (Event Span)) (a : Access Span) (l : List (Access Span))
      (o : Checked (MemoryCellClocks Span))
      → Ordered (kind_of a.operation) h a.thread.clock
      → RunVerdict size (event_of a ∷ h) l o
      → RunVerdict size h (a ∷ l) o
  then_rest size h a l panicked ord v = v
  then_rest size h a l data_race ord v = λ f. v (f.1)
  then_rest size h a l (ok m') ord v = ((ord, v.0), v.1)

  next :
      (size : ℕ) (h : List (Event Span)) (a : Access Span) (l : List (Access Span))
      (o : Checked (MemoryCellClocks Span))
      → CellVerdict size h (event_of a) o
      → ((m' : MemoryCellClocks Span)
          → Tracks size m' (event_of a ∷ h)
          → RunVerdict size (event_of a ∷ h) l (run size m' l))
      → RunVerdict size h (a ∷ l) (o >>= λ m'. run size m' l)
  next size h a l panicked v rest = v
  next size h a l data_race v rest = λ f. v (f.0)
  next size h a l (ok m') v rest = then_rest size h a l (run size m' l) (v.0) (rest m' (v.1))

  run-Verdict :
      (size : ℕ) (h : List (Event Span)) (m : MemoryCellClocks Span) (l : List (Access Span))
      → Tracks size m h
      → AllCausal h l
      → RunVerdict size h l (run size m l)
  unfolding run
  run-Verdict size h m [] t c = (tt, t)
  run-Verdict size h m (a ∷ l) t c =
      next size h a l (detect size m a.index a.thread a.operation)
        (detect-Verdict size h m a.index a.thread a.operation t (c.0) (c.1))
        (λ m' t'. run-Verdict size (event_of a ∷ h) m' l t' (c.2))

  -- Non-atomic accesses, atomic loads and atomic stores of a new cell, where all atomic accesses have
  -- one size, by threads whose clocks fit each other and have a time of their own above 0 and below
  -- 2 ^ 31, never make a check panic. The checks report a data race exactly where two conflicting
  -- accesses, the allocation included, are not ordered by the clocks; two atomic accesses do not
  -- conflict, and nor do two reads. Else the cell still tracks the whole history.
  pub run_lem :
      (size : ℕ) (alloc : VTimestamp Span) (alloc_index : ℕ) (c : VClock Span)
      (l : List (Access Span))
      → time alloc ≡ tm c alloc_index
      → AllCausal (write_event alloc_index c ∷ []) l
      → RunVerdict size (write_event alloc_index c ∷ []) l (run size (cell_new alloc alloc_index) l)
  run_lem size alloc alloc_index c l e k =
      run-Verdict size (write_event alloc_index c ∷ []) (cell_new alloc alloc_index) l
        (written-Tracks size [] alloc_index allocate alloc c e tt) k
