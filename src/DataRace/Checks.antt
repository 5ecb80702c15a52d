-- ===== src/DataRace/Checks.antt =====
-- data_race.rs: the methods of `MemoryCellClocks`.
use miri.Base.{
  Outcome, ret, ℕ, Bool, true, false, not, ◌&&◌, leb, if◌then◌else◌, Option, none, some,
}
use miri.VectorClock.Timestamp.{Spans, NaReadType, VTimestamp, time}
use miri.VectorClock.Timestamp
use miri.VectorClock.{VClock, at, index_mut, join, set_at_index, set_zero_vector, le}
use miri.DataRace.Orderings.{
  AtomicRwOrd, AtomicReadOrd, AtomicWriteOrd, NaWriteType, read_is_relaxed, write_is_relaxed,
  acquires, releases, Checked, panicked, data_race, ok, ◌>>=◌, lift, ok_if,
}
use miri.DataRace.Cell.{
  ThreadClockSet, AtomicMemoryCellClocks, MemoryCellClocks, State, same_size, atomic_new,
  is_none_or, sync_source,
}

module _ {Span : Type 0} where
  -- `atomic_access`, on the contents of `atomic_ops`
  unfoldable pub atomic_access :
      Option (AtomicMemoryCellClocks Span)
      → VClock Span
      → ℕ
      → Bool
      → Checked (AtomicMemoryCellClocks Span)
  atomic_access none clock size write = ok (atomic_new size)
  atomic_access (some atomic) clock size write =
      if same_size atomic.size size
      then ok atomic
      else (if le atomic.read_vector clock && le atomic.write_vector clock
          then ok (record atomic { size = some size })
          else (if not write && le atomic.write_vector clock
              then ok (record atomic { size = none })
              else data_race))

module _ {Span : Type 0} ⦃s : Spans Span⦄ where
  abbrev pub write_was_before : MemoryCellClocks Span → VClock Span → Bool
  write_was_before m other = leb (time m.write_time) (time (at other m.write_index))

  abbrev pub join_with : Option (VClock Span) → VClock Span → VClock Span
  join_with none clock = clock
  join_with (some sync_clock) clock = join clock sync_clock

  unfoldable pub atomic_read_detect :
      MemoryCellClocks Span → VClock Span → ℕ → ℕ → Checked (MemoryCellClocks Span)
  unfolding atomic_access set_at_index
  atomic_read_detect m clock index size = do
    atomic ← atomic_access m.atomic_ops clock size false
    read_vector ← lift (set_at_index atomic.read_vector clock index)
    ok_if (write_was_before m clock)
        (record m { atomic_ops = some (record atomic { read_vector = read_vector }) })

  unfoldable pub atomic_write_detect :
      MemoryCellClocks Span → VClock Span → ℕ → ℕ → Checked (MemoryCellClocks Span)
  unfolding atomic_access set_at_index
  atomic_write_detect m clock index size = do
    atomic ← atomic_access m.atomic_ops clock size true
    write_vector ← lift (set_at_index atomic.write_vector clock index)
    ok_if (write_was_before m clock && le m.read clock)
        (record m { atomic_ops = some (record atomic { write_vector = write_vector }) })

  unfoldable pub load_acquire :
      MemoryCellClocks Span
      → ThreadClockSet Span
      → ℕ
      → ℕ
      → Option (VClock Span)
      → Checked (State Span)
  unfolding atomic_read_detect join
  load_acquire m th index size sync_clock = do
    m' ← atomic_read_detect m th.clock index size
    ok (m', record th { clock = join_with (sync_source sync_clock m'.atomic_ops) th.clock })

  unfoldable pub load_relaxed :
      MemoryCellClocks Span
      → ThreadClockSet Span
      → ℕ
      → ℕ
      → Option (VClock Span)
      → Checked (State Span)
  unfolding atomic_read_detect join
  load_relaxed m th index size sync_clock = do
    m' ← atomic_read_detect m th.clock index size
    ok (
      m',
      record th {
        fence_acquire = join_with (sync_source sync_clock m'.atomic_ops) th.fence_acquire;
      },
    )

  -- `atomic_mut_unwrap`, and the new value of `sync_vector` from the old one
  unfoldable pub set_sync :
      (VClock Span → VClock Span) → MemoryCellClocks Span → Checked (MemoryCellClocks Span)
  set_sync f m = elim m.atomic_ops [
    | none ↦ panicked
    | some atomic ↦
        ok (record m { atomic_ops = some (record atomic { sync_vector = f atomic.sync_vector }) })
  ]

  unfoldable pub store_release :
      MemoryCellClocks Span → ThreadClockSet Span → ℕ → ℕ → Checked (MemoryCellClocks Span)
  unfolding atomic_write_detect set_sync
  store_release m th index size =
      atomic_write_detect m th.clock index size >>= set_sync (λ sync. th.clock)

  unfoldable pub store_relaxed :
      MemoryCellClocks Span → ThreadClockSet Span → ℕ → ℕ → Checked (MemoryCellClocks Span)
  unfolding atomic_write_detect set_sync
  store_relaxed m th index size =
      atomic_write_detect m th.clock index size >>= set_sync (λ sync. th.fence_release)

  unfoldable pub rmw_release :
      MemoryCellClocks Span → ThreadClockSet Span → ℕ → ℕ → Checked (MemoryCellClocks Span)
  unfolding atomic_write_detect set_sync join
  rmw_release m th index size =
      atomic_write_detect m th.clock index size >>= set_sync (λ sync. join sync th.clock)

  unfoldable pub rmw_relaxed :
      MemoryCellClocks Span → ThreadClockSet Span → ℕ → ℕ → Checked (MemoryCellClocks Span)
  unfolding atomic_write_detect set_sync join
  rmw_relaxed m th index size =
      atomic_write_detect m th.clock index size >>= set_sync (λ sync. join sync th.fence_release)

  -- `index_mut(index).span = current_span`, unless that is a dummy
  unfoldable pub with_span : VClock Span → ℕ → Span → Outcome (VClock Span)
  unfolding index_mut
  with_span clock index current_span =
      if s.is_dummy current_span
      then ret clock
      else index_mut clock index (λ t. ret (record t { span = current_span }))

  -- the checks of a non-atomic read, and its record, with the marked clock
  unfoldable pub check_read :
      MemoryCellClocks Span → ThreadClockSet Span → ℕ → VClock Span → Checked (State Span)
  unfolding set_at_index
  check_read m th index clock =
      if not (write_was_before m clock)
      then data_race
      else (if not (is_none_or (λ atomic. le atomic.write_vector clock) m.atomic_ops)
          then data_race
          else (lift (set_at_index m.read clock index) >>= λ read.
              ok (record m { read = read }, record th { clock = clock })))

  unfoldable pub non_atomic_read_detect :
      MemoryCellClocks Span → ThreadClockSet Span → ℕ → NaReadType → Span → Checked (State Span)
  unfolding with_span index_mut check_read
  non_atomic_read_detect m th index read_type current_span = do
    spanned ← lift (with_span th.clock index current_span)
    clock ← lift (index_mut spanned index (λ t. Timestamp.set_read_type t read_type))
    check_read m th index clock

  -- the checks of a non-atomic write, and its record, with the marked clock
  unfoldable pub check_write :
      MemoryCellClocks Span
      → ThreadClockSet Span
      → ℕ
      → NaWriteType
      → VClock Span
      → Checked (State Span)
  unfolding set_zero_vector
  check_write m th index write_type clock =
      if not (write_was_before m clock && le m.read clock)
      then data_race
      else (if not (
            is_none_or (λ atomic. le atomic.write_vector clock && le atomic.read_vector clock)
              m.atomic_ops)
          then data_race
          else ok (
            record {
              write_index = index;
              write_time = at clock index;
              write_type = write_type;
              read = set_zero_vector m.read;
              atomic_ops = none;
            },
            record th { clock = clock },
          ))

  unfoldable pub non_atomic_write_detect :
      MemoryCellClocks Span → ThreadClockSet Span → ℕ → NaWriteType → Span → Checked (State Span)
  unfolding with_span check_write
  non_atomic_write_detect m th index write_type current_span = do
    clock ← lift (with_span th.clock index current_span)
    check_write m th index write_type clock

  -- what `validate_atomic_load`, `validate_atomic_store` and `validate_atomic_rmw` do to a cell
  unfoldable pub atomic_load :
      AtomicReadOrd
      → MemoryCellClocks Span
      → ThreadClockSet Span
      → ℕ
      → ℕ
      → Option (VClock Span)
      → Checked (State Span)
  unfolding load_relaxed load_acquire
  atomic_load atomic m th index size sync_clock =
      if read_is_relaxed atomic
      then load_relaxed m th index size sync_clock
      else load_acquire m th index size sync_clock

  unfoldable pub atomic_store :
      AtomicWriteOrd → MemoryCellClocks Span → ThreadClockSet Span → ℕ → ℕ → Checked (State Span)
  unfolding store_relaxed store_release
  atomic_store atomic m th index size =
      (if write_is_relaxed atomic
        then store_relaxed m th index size
        else store_release m th index size)
      >>= λ m'. ok (m', th)

  unfoldable pub atomic_rmw :
      AtomicRwOrd → MemoryCellClocks Span → ThreadClockSet Span → ℕ → ℕ → Checked (State Span)
  unfolding load_acquire load_relaxed rmw_release rmw_relaxed
  atomic_rmw atomic m th index size =
      (if acquires atomic
        then load_acquire m th index size none
        else load_relaxed m th index size none)
      >>= λ (m', th').
          (if releases atomic then rmw_release m' th' index size else rmw_relaxed m' th' index size)
          >>= λ m1. ok (m1, th')
