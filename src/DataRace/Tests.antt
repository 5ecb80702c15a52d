-- ===== src/DataRace/Tests.antt =====
-- Runs of the data-race detector at concrete accesses, with spans that are numbers (0 the dummy).
use miri.Base.{◌≡◌, some, none, ℕ, ◌+◌, ◌==◌, if◌then◌else◌, refl, [], ◌∷◌, List, arith}
use miri.VectorClock.Timestamp.{Spans, NaReadType, VTimestamp}
use miri.VectorClock.{VClock, at, le}
use miri.VectorClock.Canonical.{pointwise_le, pointwise_le_iff}
use miri.DataRace.Orderings.{
  panicked, data_race, AtomicReadOrd, AtomicRwOrd, AtomicWriteOrd, NaWriteType,
}
use miri.DataRace.Cell.{ThreadClockSet, MemoryCellClocks, cell_new}
use miri.DataRace.Checks.{atomic_load, atomic_rmw, non_atomic_read_detect, non_atomic_write_detect}
use miri.DataRace.History.{Event, Below, Tracks}
use miri.DataRace.Detect.{Causal, Verdict, read_event, non_atomic_read_detect_lem}
use miri.DataRace.Write.{write_event, written-Tracks, non_atomic_write_detect_lem}
use miri.DataRace.Run.{run_lem}
use miri.DataRace.Operations.{Operation, Access, run, RunVerdict, AllCausal}
use miri.DataRace.Rmw.{rmw_clock, RmwVerdict, atomic_rmw_lem}

instance abbrev pub number_spans : Spans ℕ
number_spans = record {
  dummy = 0;
  is_dummy = λ s. s == 0;
  substitute_dummy = λ s t. if s == 0 then t else s;
}

abbrev pub stamp : ℕ → VTimestamp ℕ
stamp t = record { time_and_read_type = t + t; span = 7 }

abbrev pub with_clock : VClock ℕ → ThreadClockSet ℕ
with_clock c = record {
  clock = c;
  fence_acquire = [];
  fence_release = [];
  write_seqcst = [];
  read_seqcst = [];
}

-- the main thread allocates
abbrev first : VClock ℕ
first = stamp 1 ∷ []

-- and starts another thread
abbrev main_later : VClock ℕ
main_later = stamp 2 ∷ []

abbrev other : VClock ℕ
other = stamp 1 ∷ stamp 1 ∷ []

abbrev new_cell : MemoryCellClocks ℕ
new_cell = cell_new (stamp 1) 0

abbrev allocated : List (Event ℕ)
allocated = write_event 0 first ∷ []

new_cell-Tracks : Tracks 4 new_cell allocated
unfolding at
new_cell-Tracks = written-Tracks 4 [] 0 NaWriteType.allocate (stamp 1) first refl tt

first-Below-other : Below first other
unfolding pointwise_le
first-Below-other = (pointwise_le_iff first other).0 refl

other-Causal : Causal allocated 1 other
other-Causal = record { own = (λ e. omega arith, tt); closed = (λ b. first-Below-other, tt) }

-- a store of the main thread, then a read of the other that does not synchronize with it
abbrev racy : List (Access ℕ)
racy =
    record {
      operation = Operation.store AtomicWriteOrd.release;
      index = 0;
      thread = with_clock main_later;
    }
    ∷ record {
      operation = Operation.na_read NaReadType.read 7;
      index = 1;
      thread = with_clock other;
    }
    ∷ []

racy-AllCausal : AllCausal allocated racy
unfolding at pointwise_le
racy-AllCausal = (
  record {
    own = (λ e. omega arith, tt);
    closed = (λ b. (pointwise_le_iff first main_later).0 refl, tt);
  },
  (omega arith, omega arith),
  (
    record {
      own = (λ e. omega arith, (λ e. omega arith, tt));
      closed = (λ b. omega (arith, b), (λ b. first-Below-other, tt));
    },
    (omega arith, omega arith),
    tt,
  ),
)

run_lem_example : RunVerdict 4 allocated racy (run 4 new_cell racy)
unfolding at
run_lem_example = run_lem 4 (stamp 1) 0 first racy refl racy-AllCausal

non_atomic_read_detect_lem_example :
    Verdict 4 allocated
      (read_event 1 other)
      (non_atomic_read_detect new_cell (with_clock other) 1 NaReadType.read 7)
unfolding at
non_atomic_read_detect_lem_example =
    non_atomic_read_detect_lem 4 allocated new_cell (with_clock other) 1 NaReadType.read 7
      new_cell-Tracks other-Causal (omega arith) (omega arith)

non_atomic_write_detect_lem_example :
    Verdict 4 allocated
      (write_event 1 other)
      (non_atomic_write_detect new_cell (with_clock other) 1 NaWriteType.write 7)
unfolding at
non_atomic_write_detect_lem_example =
    non_atomic_write_detect_lem 4 allocated new_cell (with_clock other) 1 NaWriteType.write 7
      new_cell-Tracks other-Causal (omega arith)

atomic_rmw_lem_example :
    RmwVerdict 4 allocated 1 other
      (rmw_clock AtomicRwOrd.acq_rel 4 new_cell other)
      (atomic_rmw AtomicRwOrd.acq_rel new_cell (with_clock other) 1 4)
unfolding at
atomic_rmw_lem_example =
    atomic_rmw_lem 4 allocated new_cell (with_clock other) 1 AtomicRwOrd.acq_rel new_cell-Tracks
      other-Causal (λ b. omega (arith, b), tt)

-- a thread whose clock has no entry of its own cannot mark it
no_entry_panics : non_atomic_read_detect new_cell (with_clock first) 1 NaReadType.read 7 ≡ panicked
unfolding non_atomic_read_detect at
no_entry_panics = refl

-- atomic accesses of different sizes that are not ordered
abbrev half_stored : MemoryCellClocks ℕ
half_stored = record new_cell {
  atomic_ops = some (record {
    read_vector = [];
    write_vector = main_later;
    sync_vector = main_later;
    size = some 2;
  });
}

mixed_sizes_race :
    atomic_load AtomicReadOrd.acquire half_stored (with_clock other) 1 4 none ≡ data_race
unfolding atomic_load at le
mixed_sizes_race = refl
