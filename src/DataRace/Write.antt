-- ===== src/DataRace/Write.antt =====
-- data_race.rs: the check of a non-atomic write.
use miri.Base.{
  true-ne-false, ℕ, ◌≤◌, ◌<◌, ◌≡◌, refl, sym, ◌∙◌, ◌↔◌, Bool, true, ◌&&◌, Option, none, some, List,
  [], ◌∷◌, arith, Bool-cases, inl, inr, le→leb,
}
use miri.VectorClock.Timestamp.{Spans, VTimestamp, time}
use miri.VectorClock.{VClock, at, set_zero_vector, le}
use miri.VectorClock.Canonical.{IsCanonical}
use miri.DataRace.Orderings.{NaWriteType}
use miri.DataRace.Cell.{MemoryCellClocks, AtomicMemoryCellClocks, ThreadClockSet, is_none_or}
use miri.DataRace.Checks.{write_was_before, with_span, check_write, non_atomic_write_detect}
use miri.DataRace.History.{
  Kind, tm, Below, Event, HappensBefore, Ordered, atomic_reads, atomic_writes, PartBefore, Clear,
  Tracks, overwrite-Ordered,
}
use miri.DataRace.Clocks.{le-Below, with_span-Returns, lift-Returns, nil-Below}
use miri.DataRace.Detect.{Verdict, Causal, SameTimes}

module _ {Span : Type 0} ⦃s : Spans Span⦄ where
  abbrev pub write_event : ℕ → VClock Span → Event Span
  write_event index c = record { kind = Kind.na_write; index = index; clock = c }

  both-Below :
      (o : Option (AtomicMemoryCellClocks Span)) (c : VClock Span)
      → IsCanonical (atomic_writes o)
      → IsCanonical (atomic_reads o)
      → (is_none_or (λ atomic. le atomic.write_vector c && le atomic.read_vector c) o ≡ true)
        ↔ (Below (atomic_writes o) c × Below (atomic_reads o) c)
  both-Below none c k l = (λ e. (nil-Below c, nil-Below c), λ b. refl)
  both-Below (some atomic) c k l =
      let w = le-Below atomic.write_vector c k in
      let r = le-Below atomic.read_vector c l in
      (λ e. (w.0 (ground arith), r.0 (ground arith)), λ b. rw (w.1 (b.0), r.1 (b.1)) refl)

  -- the cell after a write that is ordered
  abbrev pub written : ℕ → NaWriteType → VTimestamp Span → MemoryCellClocks Span
  written index write_type stamp = record {
    write_index = index;
    write_time = stamp;
    write_type = write_type;
    read = [];
    atomic_ops = none;
  }

  pub written-Tracks :
      (size : ℕ) (h : List (Event Span)) (index : ℕ) (write_type : NaWriteType)
      (stamp : VTimestamp Span) (c : VClock Span)
      → time stamp ≡ tm c index
      → Ordered Kind.na_write h c
      → Tracks size (written index write_type stamp) (write_event index c ∷ h)
  unfolding at
  written-Tracks size h index write_type stamp c same ord = record {
    ordered = λ kind x closed.
        overwrite-Ordered (written index write_type stamp) (write_event index c) h kind x (part x)
          refl ord closed;
    reads_up_to = λ i n u. omega arith;
    atomic_reads_up_to = λ i n u. omega arith;
    atomic_writes_up_to = λ i n u. omega arith;
    reads_canonical = tt;
    atomic_reads_canonical = tt;
    atomic_writes_canonical = tt;
    one_size = tt;
  }
    where
      part :
          (x : VClock Span) (old : Kind)
          → PartBefore (written index write_type stamp) old x
            ↔ (old ≡ Kind.na_write → HappensBefore (write_event index c) x)
      part x Kind.na_write = (λ p q. omega (arith, same), λ p. omega (arith, p refl, same))
      part x Kind.na_read = (λ p q. cc, λ p. nil-Below x)
      part x Kind.atomic_read = (λ p q. cc, λ p. nil-Below x)
      part x Kind.atomic_write = (λ p q. cc, λ p. nil-Below x)

  Clear-na_write :
      (m : MemoryCellClocks Span) (c : VClock Span)
      → PartBefore m Kind.na_write c
      → Below m.read c
      → Below (atomic_writes m.atomic_ops) c
      → Below (atomic_reads m.atomic_ops) c
      → Clear Kind.na_write m c
  Clear-na_write m c w r aw ar Kind.na_write q = w
  Clear-na_write m c w r aw ar Kind.na_read q = r
  Clear-na_write m c w r aw ar Kind.atomic_write q = aw
  Clear-na_write m c w r aw ar Kind.atomic_read q = ar

  check_write-Verdict :
      (size : ℕ) (h : List (Event Span)) (m : MemoryCellClocks Span) (th : ThreadClockSet Span)
      (index : ℕ) (write_type : NaWriteType) (clock : VClock Span)
      → Tracks size m h
      → Causal h index th.clock
      → SameTimes clock th.clock
      → Verdict size h (write_event index th.clock) (check_write m th index write_type clock)
  unfolding check_write set_zero_vector
  check_write-Verdict size h m th index write_type clock t c same =
      elim (Bool-cases (write_was_before m clock && le m.read clock)) [
        | inr n ↦ rw (n) (λ o.
            let k = clear.1 o in
            let w : write_was_before m clock ≡ true =
              le→leb _ _ (omega (arith, k Kind.na_write refl, same m.write_index)) in
            let r : le m.read clock ≡ true =
              reads.1 (λ i. omega (arith, k Kind.na_read refl i, same i)) in
            ground (arith, w, r))
        | inl a ↦ elim (Bool-cases (is_none_or both m.atomic_ops)) [
          | inr n ↦
              rw (a, n)
                (λ o.
                  let k = clear.1 o in
                  let f = atomics.1 (
                    λ i. omega (arith, k Kind.atomic_write refl i, same i),
                    λ i. omega (arith, k Kind.atomic_read refl i, same i),
                  ) in
                  true-ne-false (sym f ∙ n))
          | inl b ↦
              let w : time m.write_time ≤ tm clock m.write_index = ground arith in
              let r : Below m.read clock = reads.0 (ground arith) in
              let ab = atomics.0 b in
              let ord = clear.0 (
                Clear-na_write m th.clock (omega (arith, w, same m.write_index))
                  (λ i. omega (arith, r i, same i)) (λ i. omega (arith, ab.0 i, same i))
                  (λ i. omega (arith, ab.1 i, same i))) in
              rw (a, b)
                (
                  ord,
                  written-Tracks size h index write_type (at clock index) th.clock (same index) ord,
                  λ i. omega (arith, same i),
                )
        ]
      ]
    where
      both : AtomicMemoryCellClocks Span → Bool
      both atomic = le atomic.write_vector clock && le atomic.read_vector clock

      clear : Clear Kind.na_write m th.clock ↔ Ordered Kind.na_write h th.clock
      clear = t.ordered Kind.na_write th.clock c.closed

      reads : (le m.read clock ≡ true) ↔ Below m.read clock
      reads = le-Below m.read clock t.reads_canonical

      atomics :
          (is_none_or
              (λ atomic. le atomic.write_vector clock && le atomic.read_vector clock)
              m.atomic_ops
            ≡ true)
          ↔ (Below (atomic_writes m.atomic_ops) clock × Below (atomic_reads m.atomic_ops) clock)
      atomics = both-Below m.atomic_ops clock t.atomic_writes_canonical t.atomic_reads_canonical

  -- A non-atomic write (or an allocation, deallocation or retag) of a cell that tracks its history,
  -- and whose atomic accesses, if it keeps any, had one size, by a thread whose clock fits the history
  -- and has a time of its own above 0, does not panic. It is a
  -- data race exactly where an earlier access is not ordered before it, and else the cell tracks the
  -- history with the write.
  pub non_atomic_write_detect_lem :
      (size : ℕ) (h : List (Event Span)) (m : MemoryCellClocks Span) (th : ThreadClockSet Span)
      (index : ℕ) (write_type : NaWriteType) (span : Span)
      → Tracks size m h
      → Causal h index th.clock
      → 0 < tm th.clock index
      → Verdict size h
          (write_event index th.clock)
          (non_atomic_write_detect m th index write_type span)
  unfolding non_atomic_write_detect
  non_atomic_write_detect_lem size h m th index write_type span t c p =
      lift-Returns (λ d. SameTimes d th.clock) (Verdict size h (write_event index th.clock))
        (with_span th.clock index span) (check_write m th index write_type)
        (with_span-Returns th.clock index span p)
        (λ d e. check_write-Verdict size h m th index write_type d t c e)
