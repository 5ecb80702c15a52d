-- ===== src/DataRace/Operations.antt =====
-- data_race.rs: accesses of one cell, one after the other, and what is to find out of them.
use miri.Base.{ℕ, ◌^◌, ◌<◌, Option, List, [], ◌∷◌}
use miri.VectorClock.Timestamp.{Spans, NaReadType}
use miri.VectorClock.{VClock}
use miri.DataRace.Orderings.{
  AtomicReadOrd, AtomicWriteOrd, NaWriteType, Checked, panicked, data_race, ok, ◌>>=◌,
}
use miri.DataRace.Cell.{MemoryCellClocks, ThreadClockSet, State}
use miri.DataRace.Checks.{
  non_atomic_read_detect, non_atomic_write_detect, atomic_load, atomic_store,
}
use miri.DataRace.History.{Kind, tm, Event, Ordered, Tracks}
use miri.DataRace.Detect.{Causal}

-- An access, less the size of an atomic one: a run gives all its atomic accesses the same size.
pub data Operation (Span : Type 0) : Type 0 where
  na_read : NaReadType → Span → Operation Span
  na_write : NaWriteType → Span → Operation Span
  load : AtomicReadOrd → Option (VClock Span) → Operation Span
  store : AtomicWriteOrd → Operation Span

pub record Access (Span : Type 0) : Type 0 where
  pub operation : Operation Span
  pub index : ℕ
  pub thread : ThreadClockSet Span

module _ {Span : Type 0} where
  abbrev pub cell_of : Checked (State Span) → Checked (MemoryCellClocks Span)
  cell_of o = o >>= λ (m, th). ok m

  abbrev pub kind_of : Operation Span → Kind
  kind_of (na_read read_type span) = Kind.na_read
  kind_of (na_write write_type span) = Kind.na_write
  kind_of (load atomic sync_clock) = Kind.atomic_read
  kind_of (store atomic) = Kind.atomic_write

  abbrev pub event_of : Access Span → Event Span
  event_of a = record { kind = kind_of a.operation; index = a.index; clock = a.thread.clock }

module _ {Span : Type 0} ⦃s : Spans Span⦄ where
  unfoldable pub detect :
      ℕ
      → MemoryCellClocks Span
      → ℕ
      → ThreadClockSet Span
      → Operation Span
      → Checked (MemoryCellClocks Span)
  unfolding non_atomic_read_detect non_atomic_write_detect atomic_load atomic_store
  detect size m index th (na_read read_type span) =
      cell_of (non_atomic_read_detect m th index read_type span)
  detect size m index th (na_write write_type span) =
      cell_of (non_atomic_write_detect m th index write_type span)
  detect size m index th (load atomic sync_clock) =
      cell_of (atomic_load atomic m th index size sync_clock)
  detect size m index th (store atomic) = cell_of (atomic_store atomic m th index size)

  -- the accesses in their order, up to the first data race
  unfoldable pub run :
      ℕ → MemoryCellClocks Span → List (Access Span) → Checked (MemoryCellClocks Span)
  unfolding detect
  run size m [] = ok m
  run size m (a ∷ l) = detect size m a.index a.thread a.operation >>= λ m'. run size m' l

  -- no access conflicts with an earlier one that is not ordered before it
  abbrev pub RaceFree : List (Event Span) → List (Access Span) → Type 0
  RaceFree h [] = Unit
  RaceFree h (a ∷ l) = Ordered (kind_of a.operation) h a.thread.clock × RaceFree (event_of a ∷ h) l

  -- the threads' clocks fit the accesses before
  abbrev pub AllCausal : List (Event Span) → List (Access Span) → Type 0
  AllCausal h [] = Unit
  AllCausal h (a ∷ l) =
      Causal h a.index a.thread.clock
      × ((0 < tm a.thread.clock a.index) × (tm a.thread.clock a.index < 2 ^ 31))
      × AllCausal (event_of a ∷ h) l

  abbrev pub history : List (Event Span) → List (Access Span) → List (Event Span)
  history h [] = h
  history h (a ∷ l) = history (event_of a ∷ h) l

  abbrev pub RunVerdict :
      ℕ → List (Event Span) → List (Access Span) → Checked (MemoryCellClocks Span) → Type 0
  RunVerdict size h l panicked = ⊥
  RunVerdict size h l data_race = ¬ RaceFree h l
  RunVerdict size h l (ok m) = RaceFree h l × Tracks size m (history h l)
