-- ===== src/DataRace/RangeTests.antt =====
-- Accesses of ranges of an allocation of eight bytes, with spans that are numbers.
use miri.Base.{Returns, ◌+◌, ◌≤◌, ◌<◌, ◌≡◌, some, ℕ, refl, List, [], ◌∷◌, arith}
use miri.VectorClock.Timestamp.{NaReadType}
use miri.VectorClock.{VClock, at}
use miri.VectorClock.Canonical.{pointwise_le, pointwise_le_iff}
use miri.DataRace.Orderings.{NaWriteType}
use miri.DataRace.History.{Event, Below}
use miri.DataRace.Detect.{Causal}
use miri.DataRace.Write.{write_event}
use miri.DataRace.Ranges.{sync_clock, MemoryKind, Ranges, new_allocation}
use miri.DataRace.RangeOperations.{range_read, range_write, RangeAccess, range_event, check_range}
use miri.DataRace.RangeAccess.{RangeVerdict}
use miri.DataRace.RangeCheck.{check_range_lem}
use miri.DataRace.RangeRun.{new_allocation-AllTrack, new_allocation-IsContiguous}
use miri.DedupRangeMap.Lookup.{lookup}
use miri.DataRace.Cell.{MemoryCellClocks, AtomicMemoryCellClocks, cell_new}
use miri.DataRace.RangeClock.{sync_clock_lem}
use miri.DataRace.Tests.{number_spans, stamp, with_clock}

-- the main thread allocates
abbrev begin : VClock ℕ
begin = stamp 1 ∷ []

-- and starts another thread, which goes on beside it
abbrev main_later : VClock ℕ
main_later = stamp 2 ∷ []

abbrev other : VClock ℕ
other = stamp 1 ∷ stamp 1 ∷ []

abbrev made : Ranges ℕ
made = new_allocation 8 MemoryKind.stack begin 0 0 7

abbrev allocated : ℕ → List (Event ℕ)
allocated o = write_event 0 begin ∷ []

-- the main thread writes four bytes
abbrev main_write : RangeAccess ℕ
main_write = record {
  operation = range_write NaWriteType.write;
  span = 7;
  index = 0;
  thread = with_clock main_later;
  start = 0;
  len = 4;
}

-- the other thread reads two of them and two more
abbrev other_read : RangeAccess ℕ
other_read = record {
  operation = range_read NaReadType.read;
  span = 9;
  index = 1;
  thread = with_clock other;
  start = 2;
  len = 4;
}

begin-Below-other : Below begin other
unfolding pointwise_le
begin-Below-other = (pointwise_le_iff begin other).0 refl

other-Causal : Causal (write_event 0 begin ∷ []) 1 other
other-Causal = record { own = (λ e. omega arith, tt); closed = (λ b. begin-Below-other, tt) }

check_range_example :
    RangeVerdict 4 8 allocated 2 6
      (range_event other_read)
      (check_range other_read.operation other_read made)
unfolding at
check_range_example =
    check_range_lem 4 8 allocated made other_read
      (new_allocation-IsContiguous 8 MemoryKind.stack begin 0 0 7)
      (new_allocation-AllTrack 4 8 MemoryKind.stack begin 0 0 7) (omega arith) (omega arith)
      (omega arith, omega arith) (λ o b. other-Causal)

-- two cells, the second with an atomic store released at time 3 of the main thread
abbrev released : AtomicMemoryCellClocks ℕ
released = record {
  read_vector = [];
  write_vector = stamp 3 ∷ [];
  sync_vector = stamp 3 ∷ [];
  size = some 4;
}

abbrev two_cells : Ranges ℕ
two_cells =
    record { range = record { start = 0; end = 4 }; value = cell_new (stamp 1) 0 }
    ∷ record {
      range = record { start = 4; end = 8 };
      value = record (cell_new (stamp 1) 0) { atomic_ops = some released };
    }
    ∷ []

sync_clock_example : Returns (sync_clock two_cells 2 4) (λ c.
    (o : ℕ) (m : MemoryCellClocks ℕ) (a : AtomicMemoryCellClocks ℕ)
    → 2 ≤ o
    → o < 2 + 4
    → lookup (λ x. x) two_cells o ≡ some m
    → m.atomic_ops ≡ some a
    → Below a.sync_vector c)
sync_clock_example = sync_clock_lem two_cells 8 2 4 (omega arith) (omega arith) (omega arith)
