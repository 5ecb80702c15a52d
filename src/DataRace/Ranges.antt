-- ===== src/DataRace/Ranges.antt =====
-- data_race.rs: `VClockAlloc`, the cells of an allocation by ranges of its bytes, and non-atomic
-- accesses of a range. The closure's thread clocks are passed from element to element.
use miri.Base.{
  Option, none, some, Outcome, map_outcome, ℕ, Bool, true, false, not, if◌then◌else◌, List, [], ◌∷◌,
  ◌++◌,
}
use miri.VectorClock.Timestamp.{Spans, NaReadType, VTimestamp, timestamp_zero}
use miri.VectorClock.{VClock, at, join}
use miri.DedupRangeMap.{Elem, iter_mut, iter, new}
use miri.DataRace.Orderings.{NaWriteType, Checked, ok, ◌>>=◌, lift}
use miri.DataRace.Cell.{AtomicMemoryCellClocks, MemoryCellClocks, ThreadClockSet, State, cell_new}
use miri.DataRace.CellEq.{cell_eq}
use miri.DataRace.Checks.{non_atomic_read_detect, non_atomic_write_detect}

-- `alloc_ranges`
abbrev pub Ranges : Type 0 → Type 0
Ranges Span = List (Elem (MemoryCellClocks Span))

-- the check of one cell
abbrev pub Detect : Type 0 → Type 0
Detect Span = MemoryCellClocks Span → ThreadClockSet Span → Checked (State Span)

-- the ranges and the clocks of the thread that accesses them
abbrev pub RangeState : Type 0 → Type 0
RangeState Span = Ranges Span × ThreadClockSet Span

module _ {Span : Type 0} where
  -- the loop over what `iter_mut` yields, up to the first data race
  unfoldable pub range_loop :
      Detect Span → Ranges Span → ThreadClockSet Span → Checked (RangeState Span)
  range_loop detect [] th = ok ([], th)
  range_loop detect (e ∷ v) th = do
    (m, th1) ← detect e.value th
    (w, th2) ← range_loop detect v th1
    ok (record { range = e.range; value = m } ∷ w, th2)

  unfoldable pub access_range :
      Detect Span → Ranges Span → ThreadClockSet Span → ℕ → ℕ → Checked (RangeState Span)
  unfolding range_loop iter_mut cell_eq
  access_range detect ranges th start size = do
    s ← lift (iter_mut cell_eq ranges start size)
    (w, th') ← range_loop detect s.slice th
    ok (s.before ++ (w ++ s.after), th')

-- `MiriMemoryKind`, with `Miri` as `miri_memory`, and `MemoryKind`
pub data MiriMemoryKind : Type 0 where
  kernel rust miri_memory c win_heap win_local machine runtime global : MiriMemoryKind
  extern_static tls mmap socket_address : MiriMemoryKind

pub data MemoryKind : Type 0 where
  stack caller_location : MemoryKind
  machine : MiriMemoryKind → MemoryKind

-- user allocated and stack memory should track allocation
abbrev pub tracks_allocation : MemoryKind → Bool
tracks_allocation MemoryKind.stack = true
tracks_allocation MemoryKind.caller_location = false
tracks_allocation (MemoryKind.machine MiriMemoryKind.global) = false
tracks_allocation (MemoryKind.machine MiriMemoryKind.machine) = false
tracks_allocation (MemoryKind.machine MiriMemoryKind.runtime) = false
tracks_allocation (MemoryKind.machine MiriMemoryKind.extern_static) = false
tracks_allocation (MemoryKind.machine MiriMemoryKind.tls) = false
tracks_allocation (MemoryKind.machine _) = true

abbrev pub alloc_index : MemoryKind → ℕ → ℕ → ℕ
alloc_index kind index main_index = if tracks_allocation kind then index else main_index

module _ {Span : Type 0} ⦃s : Spans Span⦄ where
  -- the time and the index of an allocation, with the clock and the index of the active thread
  abbrev pub alloc_time : MemoryKind → VClock Span → ℕ → Span → VTimestamp Span
  alloc_time kind clock index current_span =
      if tracks_allocation kind
      then record (at clock index) { span = current_span }
      else timestamp_zero

  -- `VClockAlloc::new_allocation`
  unfoldable pub new_allocation : ℕ → MemoryKind → VClock Span → ℕ → ℕ → Span → Ranges Span
  unfolding new
  new_allocation len kind clock index main_index current_span =
      new len
        (cell_new (alloc_time kind clock index current_span) (alloc_index kind index main_index))

  -- `cpu_local` is whether the allocation is in `cpu_local_alloc_set`
  unfoldable pub read_non_atomic :
      Bool
      → Bool
      → Ranges Span
      → ThreadClockSet Span
      → ℕ
      → ℕ
      → ℕ
      → NaReadType
      → Span
      → Checked (RangeState Span)
  unfolding access_range non_atomic_read_detect
  read_non_atomic cpu_local race_detecting ranges th index start size read_type current_span =
      if cpu_local
      then ok (ranges, th)
      else (if not race_detecting
          then ok (ranges, th)
          else access_range (λ m t. non_atomic_read_detect m t index read_type current_span) ranges
              th start size)

  unfoldable pub write_non_atomic :
      Bool
      → Bool
      → Ranges Span
      → ThreadClockSet Span
      → ℕ
      → ℕ
      → ℕ
      → NaWriteType
      → Span
      → Checked (RangeState Span)
  unfolding access_range non_atomic_write_detect
  write_non_atomic cpu_local race_detecting ranges th index start size write_type current_span =
      if cpu_local
      then ok (ranges, th)
      else (if not race_detecting
          then ok (ranges, th)
          else access_range (λ m t. non_atomic_write_detect m t index write_type current_span)
              ranges th start size)

  abbrev pub join_atomic : VClock Span → Option (AtomicMemoryCellClocks Span) → VClock Span
  join_atomic clock none = clock
  join_atomic clock (some atomic) = join clock atomic.sync_vector

  -- the loop of `sync_clock`
  unfoldable pub join_sync : VClock Span → Ranges Span → VClock Span
  unfolding join
  join_sync clock [] = clock
  join_sync clock (e ∷ v) = join_sync (join_atomic clock (MemoryCellClocks.atomic_ops e.value)) v

  unfoldable pub sync_clock : Ranges Span → ℕ → ℕ → Outcome (VClock Span)
  unfolding iter join_sync
  sync_clock ranges start size = map_outcome (join_sync []) (iter ranges start size)
