-- ===== src/DataRace/Cell.antt =====
-- data_race.rs: `ThreadClockSet` and `MemoryCellClocks`.
use miri.Base.{ℕ, Bool, true, false, ◌==◌, Option, none, some, []}
use miri.VectorClock.Timestamp.{VTimestamp}
use miri.VectorClock.{VClock}
use miri.DataRace.Orderings.{NaWriteType, allocate}

pub record ThreadClockSet (Span : Type 0) : Type 0 where
  pub clock : VClock Span
  pub fence_acquire : VClock Span
  pub fence_release : VClock Span
  pub write_seqcst : VClock Span
  pub read_seqcst : VClock Span

pub record AtomicMemoryCellClocks (Span : Type 0) : Type 0 where
  pub read_vector : VClock Span
  pub write_vector : VClock Span
  pub sync_vector : VClock Span
  pub size : Option ℕ

pub record MemoryCellClocks (Span : Type 0) : Type 0 where
  pub write_index : ℕ
  pub write_time : VTimestamp Span
  pub write_type : NaWriteType
  pub read : VClock Span
  pub atomic_ops : Option (AtomicMemoryCellClocks Span)

-- the cell and the clocks of the thread that accesses it
abbrev pub State : Type 0 → Type 0
State Span = MemoryCellClocks Span × ThreadClockSet Span

abbrev pub same_size : Option ℕ → ℕ → Bool
same_size none size = false
same_size (some n) size = n == size

module _ {Span : Type 0} where
  abbrev pub atomic_new : ℕ → AtomicMemoryCellClocks Span
  atomic_new size = record {
    read_vector = [];
    write_vector = [];
    sync_vector = [];
    size = some size;
  }

  -- `MemoryCellClocks::new`
  abbrev pub cell_new : VTimestamp Span → ℕ → MemoryCellClocks Span
  cell_new alloc alloc_index = record {
    write_index = alloc_index;
    write_time = alloc;
    write_type = allocate;
    read = [];
    atomic_ops = none;
  }

  -- `is_none_or`
  abbrev pub is_none_or :
      (AtomicMemoryCellClocks Span → Bool) → Option (AtomicMemoryCellClocks Span) → Bool
  is_none_or test none = true
  is_none_or test (some atomic) = test atomic

  -- the clock to synchronize with: the one given, or that of the cell
  abbrev pub sync_source :
      Option (VClock Span) → Option (AtomicMemoryCellClocks Span) → Option (VClock Span)
  sync_source (some sync_clock) atomic = some sync_clock
  sync_source none none = none
  sync_source none (some atomic) = some atomic.sync_vector
