-- ===== src/DataRace/Keeps.antt =====
-- data_race.rs: a check of a non-atomic access keeps the times of the thread's clock.
use miri.Base.{ℕ, ◌^◌, ◌<◌, Outcome, panic, ret, Bool-cases, inl, inr, ◌&&◌}
use miri.VectorClock.Timestamp.{Spans, NaReadType}
use miri.VectorClock.{VClock, set_at_index, le}
use miri.DataRace.Orderings.{NaWriteType, Checked, panicked, data_race, ok, ◌>>=◌, lift}
use miri.DataRace.Cell.{MemoryCellClocks, ThreadClockSet, State, is_none_or}
use miri.DataRace.Checks.{
  write_was_before, with_span, check_read, check_write, non_atomic_read_detect,
  non_atomic_write_detect,
}
use miri.DataRace.History.{tm}
use miri.DataRace.Clocks.{with_span-Returns, lift-Returns, marked_read-Returns}
use miri.DataRace.Detect.{SameTimes}

module _ {Span : Type 0} ⦃s : Spans Span⦄ where
  abbrev pub Keeps : VClock Span → Checked (State Span) → Type 0
  Keeps c panicked = Unit
  Keeps c data_race = Unit
  Keeps c (ok (m, th)) = SameTimes th.clock c

  lift-Keeps :
      (c : VClock Span) (o : Outcome (VClock Span)) (f : VClock Span → State Span)
      → ((r : VClock Span) → SameTimes (f r).1.clock c)
      → Keeps c (lift o >>= λ r. ok (f r))
  lift-Keeps c panic f k = tt
  lift-Keeps c (ret r) f k = k r

  check_write-Keeps :
      (m : MemoryCellClocks Span) (th : ThreadClockSet Span) (index : ℕ) (write_type : NaWriteType)
      (clock : VClock Span)
      → SameTimes clock th.clock
      → Keeps th.clock (check_write m th index write_type clock)
  unfolding check_write
  check_write-Keeps m th index write_type clock k =
      elim (Bool-cases (write_was_before m clock && le m.read clock)) [
        | inr n ↦ rw (n) tt
        | inl a ↦
            elim (Bool-cases (
              is_none_or (λ atomic. le atomic.write_vector clock && le atomic.read_vector clock)
                m.atomic_ops)) [ inr n ↦ rw (a, n) tt | inl b ↦ rw (a, b) k ]
      ]

  pub non_atomic_write_detect-Keeps :
      (m : MemoryCellClocks Span) (th : ThreadClockSet Span) (index : ℕ) (write_type : NaWriteType)
      (span : Span)
      → 0 < tm th.clock index
      → Keeps th.clock (non_atomic_write_detect m th index write_type span)
  unfolding non_atomic_write_detect
  non_atomic_write_detect-Keeps m th index write_type span p =
      lift-Returns (λ d. SameTimes d th.clock) (Keeps th.clock) (with_span th.clock index span)
        (check_write m th index write_type) (with_span-Returns th.clock index span p)
        (λ d e. check_write-Keeps m th index write_type d e)

  check_read-Keeps :
      (m : MemoryCellClocks Span) (th : ThreadClockSet Span) (index : ℕ) (clock : VClock Span)
      → SameTimes clock th.clock
      → Keeps th.clock (check_read m th index clock)
  unfolding check_read
  check_read-Keeps m th index clock k = elim (Bool-cases (write_was_before m clock)) [
    | inr n ↦ rw (n) tt
    | inl w ↦ elim (Bool-cases (is_none_or (λ atomic. le atomic.write_vector clock) m.atomic_ops)) [
      | inr n ↦ rw (w, n) tt
      | inl a ↦
          rw (w, a)
            (lift-Keeps th.clock (set_at_index m.read clock index)
              (λ read. (record m { read = read }, record th { clock = clock })) (λ r. k))
    ]
  ]

  pub non_atomic_read_detect-Keeps :
      (m : MemoryCellClocks Span) (th : ThreadClockSet Span) (index : ℕ) (read_type : NaReadType)
      (span : Span)
      → 0 < tm th.clock index
      → tm th.clock index < 2 ^ 31
      → Keeps th.clock (non_atomic_read_detect m th index read_type span)
  unfolding non_atomic_read_detect
  non_atomic_read_detect-Keeps m th index read_type span p b =
      marked_read-Returns (Keeps th.clock) th.clock index read_type span (check_read m th index) p b
        (λ clock same. check_read-Keeps m th index clock same)
