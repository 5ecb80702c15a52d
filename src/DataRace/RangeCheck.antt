-- ===== src/DataRace/RangeCheck.antt =====
-- data_race.rs: non-atomic accesses of a range of an allocation, empty or not.
use miri.Base.{
  ℕ, zero, suc, ◌+◌, ◌^◌, ◌≤◌, ◌<◌, ◌≡◌, refl, sym, ◌∙◌, false, ◌&&◌, ltb, leb, List, arith,
}
use miri.VectorClock.Timestamp.{Spans, NaReadType}
use miri.VectorClock.{VClock}
use miri.DedupRangeMap.{u64_mod, iter_mut}
use miri.DedupRangeMap.Lookup.{IsContiguous, append_nil}
use miri.DataRace.Orderings.{NaWriteType, Checked, panicked, data_race, ok}
use miri.DataRace.Cell.{ThreadClockSet, State}
use miri.DataRace.Checks.{non_atomic_read_detect, non_atomic_write_detect}
use miri.DataRace.History.{Kind, tm, Event}
use miri.DataRace.Detect.{Verdict, Causal, SameTimes, non_atomic_read_detect_lem}
use miri.DataRace.Write.{non_atomic_write_detect_lem}
use miri.DataRace.Seen.{event_at, same-Ordered, same-Causal, same-Tracks}
use miri.DataRace.Keeps.{Keeps, non_atomic_read_detect-Keeps, non_atomic_write_detect-Keeps}
use miri.DataRace.Ranges.{
  Ranges, Detect, range_loop, access_range, read_non_atomic, write_non_atomic,
}
use miri.DataRace.RangeLoop.{Between, AllTrack, AtByte, Detects}
use miri.DataRace.RangeAccess.{RangeVerdict, access_range_lem}
use miri.DataRace.RangeOperations.{
  RangeOperation, range_read, range_write, range_kind, RangeAccess, range_event, check_range,
}

module _ {Span : Type 0} ⦃s : Spans Span⦄ where
  to_AtByte :
      (size : ℕ) (h : ℕ → List (Event Span)) (kind : Kind) (index : ℕ) (c : VClock Span) (o : ℕ)
      (th : ThreadClockSet Span) (r : Checked (State Span))
      → Verdict size (h o) (event_at kind index th.clock) r
      → Keeps th.clock r
      → SameTimes th.clock c
      → AtByte size h kind index c o r
  to_AtByte size h kind index c o th panicked v k e = v
  to_AtByte size h kind index c o th data_race v k e =
      λ f. v (same-Ordered kind (h o) c th.clock (λ i. sym (e i)) f)
  to_AtByte size h kind index c o th (ok (m, th')) v k e = (
    same-Ordered kind (h o) th.clock c e (v.0),
    same-Tracks size m kind index th.clock c (h o) e (v.1),
    λ i. k i ∙ e i,
  )

  read-Detects :
      (size : ℕ) (h : ℕ → List (Event Span)) (index : ℕ) (c : VClock Span) (read_type : NaReadType)
      (span : Span)
      → 0 < tm c index
      → tm c index < 2 ^ 31
      → Detects size h Kind.na_read index c (λ m t. non_atomic_read_detect m t index read_type span)
  read-Detects size h index c read_type span p b o m th t k e =
      let has_time : 0 < tm th.clock index = omega (arith, p, e index) in
      let bound : tm th.clock index < 2 ^ 31 = omega (arith, e index) in
      to_AtByte size h Kind.na_read index c o th (non_atomic_read_detect m th index read_type span)
        (non_atomic_read_detect_lem size (h o) m th index read_type span t
          (same-Causal (h o) index c th.clock (λ i. sym (e i)) k) has_time bound)
        (non_atomic_read_detect-Keeps m th index read_type span has_time bound) e

  write-Detects :
      (size : ℕ) (h : ℕ → List (Event Span)) (index : ℕ) (c : VClock Span)
      (write_type : NaWriteType) (span : Span)
      → 0 < tm c index
      → Detects size h Kind.na_write index c
          (λ m t. non_atomic_write_detect m t index write_type span)
  write-Detects size h index c write_type span p o m th t k e =
      let has_time : 0 < tm th.clock index = omega (arith, p, e index) in
      to_AtByte size h Kind.na_write index c o th
        (non_atomic_write_detect m th index write_type span)
        (non_atomic_write_detect_lem size (h o) m th index write_type span t
          (same-Causal (h o) index c th.clock (λ i. sym (e i)) k) has_time)
        (non_atomic_write_detect-Keeps m th index write_type span has_time) e

  empty_access :
      (size n : ℕ) (h : ℕ → List (Event Span)) (detect : Detect Span) (ranges : Ranges Span)
      (th : ThreadClockSet Span) (start : ℕ) (e : Event Span)
      → IsContiguous 0 ranges n
      → AllTrack size ranges h
      → SameTimes th.clock e.clock
      → RangeVerdict size n h start (start + 0) e (access_range detect ranges th start 0)
  unfolding access_range iter_mut range_loop
  empty_access size n h detect ranges th start e c k t =
      rw (append_nil ranges)
        (λ o b. absurd (omega (arith, b)), c, λ o m q. rw (none_between o) (k o m q), t)
    where
      none_between : (o : ℕ) → (leb start o && ltb o (start + 0)) ≡ false
      none_between o = ground arith

  range_access_lem :
      (size n : ℕ) (h : ℕ → List (Event Span)) (kind : Kind) (index : ℕ) (detect : Detect Span)
      (ranges : Ranges Span) (th : ThreadClockSet Span) (start len : ℕ)
      → Detects size h kind index th.clock detect
      → IsContiguous 0 ranges n
      → AllTrack size ranges h
      → ((o : ℕ) → Between start (start + len) o → Causal (h o) index th.clock)
      → start + len ≤ n
      → n < u64_mod
      → RangeVerdict size n h start
          (start + len)
          (event_at kind index th.clock)
          (access_range detect ranges th start len)
  range_access_lem size n h kind index detect ranges th start zero d c k causal l b =
      empty_access size n h detect ranges th start (event_at kind index th.clock) c k (λ i. refl)
  range_access_lem size n h kind index detect ranges th start (suc len) d c k causal l b =
      access_range_lem size h kind index th ranges start (start + suc len) n detect d c k causal
        (suc len) refl (omega arith) l b

  -- A non-atomic access of bytes of an allocation, the empty access included, on a map without gaps
  -- whose cells keep the histories of their bytes, by a thread whose clock fits them and has a time
  -- of its own above 0 and below 2 ^ 31: it does not panic. It is a data race exactly where
  -- at some byte of the range a conflicting access is not ordered before it, and else the map is
  -- without gaps and the cell of each byte keeps its history, with the access at exactly the bytes of
  -- the range.
  pub check_range_lem :
      (size n : ℕ) (h : ℕ → List (Event Span)) (ranges : Ranges Span) (a : RangeAccess Span)
      → IsContiguous 0 ranges n
      → AllTrack size ranges h
      → n < u64_mod
      → a.start + a.len ≤ n
      → (0 < tm a.thread.clock a.index) × (tm a.thread.clock a.index < 2 ^ 31)
      → ((o : ℕ) → Between a.start (a.start + a.len) o → Causal (h o) a.index a.thread.clock)
      → RangeVerdict size n h a.start
          (a.start + a.len)
          (range_event a)
          (check_range a.operation a ranges)
  unfolding check_range read_non_atomic write_non_atomic
  check_range_lem size n h ranges a c k b l t causal = by_operation a.operation
    where
      by_operation :
          (op : RangeOperation)
          → RangeVerdict size n h a.start
              (a.start + a.len)
              (event_at (range_kind op) a.index a.thread.clock)
              (check_range op a ranges)
      by_operation (range_read read_type) =
          range_access_lem size n h Kind.na_read a.index _ ranges a.thread a.start a.len
            (read-Detects size h a.index a.thread.clock read_type a.span (t.0) (t.1)) c k causal l b
      by_operation (range_write write_type) =
          range_access_lem size n h Kind.na_write a.index _ ranges a.thread a.start a.len
            (write-Detects size h a.index a.thread.clock write_type a.span (t.0)) c k causal l b
