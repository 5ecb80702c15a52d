-- ===== src/DataRace/RangeOperations.antt =====
-- data_race.rs: non-atomic accesses of ranges of an allocation, one after the other, and what is
-- to find out of them.
use miri.Base.{ℕ, ◌+◌, ◌^◌, ◌≤◌, ◌<◌, true, false, List, [], ◌∷◌}
use miri.VectorClock.Timestamp.{Spans, NaReadType}
use miri.DedupRangeMap.Lookup.{IsContiguous}
use miri.DataRace.Orderings.{NaWriteType, Checked, panicked, data_race, ok, ◌>>=◌}
use miri.DataRace.Cell.{ThreadClockSet}
use miri.DataRace.History.{Kind, tm, Event}
use miri.DataRace.Detect.{Causal}
use miri.DataRace.Seen.{event_at}
use miri.DataRace.Ranges.{Ranges, RangeState, read_non_atomic, write_non_atomic}
use miri.DataRace.RangeLoop.{Between, AllTrack, AllOrdered}
use miri.DataRace.RangeAccess.{with_access}

pub data RangeOperation : Type 0 where
  range_read : NaReadType → RangeOperation
  range_write : NaWriteType → RangeOperation

abbrev pub range_kind : RangeOperation → Kind
range_kind (range_read read_type) = Kind.na_read
range_kind (range_write write_type) = Kind.na_write

-- `span` is `current_span`
pub record RangeAccess (Span : Type 0) : Type 0 where
  pub operation : RangeOperation
  pub span : Span
  pub index : ℕ
  pub thread : ThreadClockSet Span
  pub start : ℕ
  pub len : ℕ

module _ {Span : Type 0} ⦃s : Spans Span⦄ where
  abbrev pub range_event : RangeAccess Span → Event Span
  range_event a = event_at (range_kind a.operation) a.index a.thread.clock

  -- the access of an allocation that is not local to a CPU, while races are detected
  unfoldable pub check_range :
      RangeOperation → RangeAccess Span → Ranges Span → Checked (RangeState Span)
  unfolding read_non_atomic write_non_atomic
  check_range (range_read read_type) a ranges =
      read_non_atomic false true ranges a.thread a.index a.start a.len read_type a.span
  check_range (range_write write_type) a ranges =
      write_non_atomic false true ranges a.thread a.index a.start a.len write_type a.span

  -- the accesses in their order, up to the first data race
  unfoldable pub run_ranges : Ranges Span → List (RangeAccess Span) → Checked (Ranges Span)
  unfolding check_range
  run_ranges ranges [] = ok ranges
  run_ranges ranges (a ∷ l) = check_range a.operation a ranges >>= λ (w, th). run_ranges w l

  -- the histories of the bytes after the accesses
  abbrev pub histories : (ℕ → List (Event Span)) → List (RangeAccess Span) → ℕ → List (Event Span)
  histories h [] = h
  histories h (a ∷ l) = histories (with_access a.start (a.start + a.len) (range_event a) h) l

  -- no access conflicts with an earlier one of a byte of its range that is not ordered before it
  abbrev pub NoRaces : (ℕ → List (Event Span)) → List (RangeAccess Span) → Type 0
  NoRaces h [] = Unit
  NoRaces h (a ∷ l) =
      AllOrdered (range_kind a.operation) a.start (a.start + a.len) h a.thread.clock
      × NoRaces (with_access a.start (a.start + a.len) (range_event a) h) l

  -- the accesses lie in the allocation, and the threads' clocks fit the accesses before
  abbrev pub AllFit : ℕ → (ℕ → List (Event Span)) → List (RangeAccess Span) → Type 0
  AllFit n h [] = Unit
  AllFit n h (a ∷ l) =
      (a.start + a.len ≤ n)
      × ((0 < tm a.thread.clock a.index) × (tm a.thread.clock a.index < 2 ^ 31))
      × ((o : ℕ) → Between a.start (a.start + a.len) o → Causal (h o) a.index a.thread.clock)
      × AllFit n (with_access a.start (a.start + a.len) (range_event a) h) l

  abbrev pub RangesVerdict :
      ℕ → ℕ → (ℕ → List (Event Span)) → List (RangeAccess Span) → Checked (Ranges Span) → Type 0
  RangesVerdict size n h l panicked = ⊥
  RangesVerdict size n h l data_race = ¬ NoRaces h l
  RangesVerdict size n h l (ok w) =
      NoRaces h l × IsContiguous 0 w n × AllTrack size w (histories h l)
