-- ===== src/DataRace/Detect.antt =====
-- data_race.rs: what the check of an access has to find out, and that of a non-atomic read.
use miri.Base.{
  true-ne-false, ℕ, ◌^◌, ◌≤◌, ◌<◌, ◌≡◌, refl, sym, ◌∙◌, ◌↔◌, true, Option, none, some, List, ◌∷◌,
  Outcome, panic, ret, Returns, arith, Bool-cases, inl, inr,
}
use miri.VectorClock.Timestamp.{Spans, NaReadType}
use miri.VectorClock.{VClock, set_at_index, le}
use miri.VectorClock.Canonical.{IsCanonical}
use miri.DataRace.Orderings.{Checked, panicked, data_race, ok, ◌>>=◌, lift}
use miri.DataRace.Cell.{MemoryCellClocks, AtomicMemoryCellClocks, ThreadClockSet, State, is_none_or}
use miri.DataRace.Checks.{write_was_before, check_read, non_atomic_read_detect}
use miri.DataRace.History.{
  Kind, tm, Below, Event, Ordered, Closed, UpTo, atomic_writes, PartBefore, Clear, Tracks, Records,
  Records-Ordered,
}
use miri.DataRace.Clocks.{
  IsUpdated, set_at_index-IsUpdated, le-Below, IsUpdated-Below, marked_read-Returns, nil-Below,
}

module _ {Span : Type 0} ⦃s : Spans Span⦄ where
  -- The check does not panic. It is an error where a conflicting access is not ordered before, and
  -- else the cell has recorded the access.
  abbrev pub Verdict : ℕ → List (Event Span) → Event Span → Checked (State Span) → Type 0
  Verdict size h e panicked = ⊥
  Verdict size h e data_race = ¬ Ordered e.kind h e.clock
  Verdict size h e (ok (m, th)) =
      Ordered e.kind h e.clock × Tracks size m (e ∷ h) × ((i : ℕ) → tm e.clock i ≤ tm th.clock i)

  -- What the clocks of threads satisfy: a thread knows its own accesses, and what it has from
  -- another thread it has with all that this thread knew.
  pub record Causal (h : List (Event Span)) (index : ℕ) (c : VClock Span) : Type 0 where
    pub own : UpTo h index (tm c index)
    pub closed : Closed h c

  Clear-na_read :
      (m : MemoryCellClocks Span) (c : VClock Span)
      → PartBefore m Kind.na_write c
      → PartBefore m Kind.atomic_write c
      → Clear Kind.na_read m c
  Clear-na_read m c w a Kind.na_write q = w
  Clear-na_read m c w a Kind.atomic_write q = a
  Clear-na_read m c w a Kind.na_read q = absurd (true-ne-false (sym q))
  Clear-na_read m c w a Kind.atomic_read q = absurd (true-ne-false (sym q))

  Records-read :
      (m : MemoryCellClocks Span) (index : ℕ) (c d : VClock Span)
      → IsUpdated m.read c index d
      → tm m.read index ≤ tm c index
      → Records m (record m { read = d }) (record { kind = Kind.na_read; index = index; clock = c })
  Records-read m index c d e b Kind.na_read x =
      let p = IsUpdated-Below m.read c d x index e b in (p.0, λ f g. p.1 f (g refl), λ same. p.2)
  Records-read m index c d e b Kind.na_write x = (λ f. f, λ f g. f, λ same. cc)
  Records-read m index c d e b Kind.atomic_read x = (λ f. f, λ f g. f, λ same. cc)
  Records-read m index c d e b Kind.atomic_write x = (λ f. f, λ f g. f, λ same. cc)

  -- the test on the atomic part of a cell
  is_none_or-Below :
      (o : Option (AtomicMemoryCellClocks Span)) (c : VClock Span)
      → IsCanonical (atomic_writes o)
      → (is_none_or (λ atomic. le atomic.write_vector c) o ≡ true) ↔ Below (atomic_writes o) c
  is_none_or-Below none c k = (λ e. nil-Below c, λ b. refl)
  is_none_or-Below (some atomic) c k = le-Below atomic.write_vector c k

  abbrev pub SameTimes : VClock Span → VClock Span → Type 0
  SameTimes a b = (i : ℕ) → tm a i ≡ tm b i

  abbrev pub read_event : ℕ → VClock Span → Event Span
  read_event index c = record { kind = Kind.na_read; index = index; clock = c }

  -- what is recorded of a read that is ordered
  recorded_read :
      (size : ℕ) (h : List (Event Span)) (m : MemoryCellClocks Span) (th : ThreadClockSet Span)
      (index : ℕ) (clock : VClock Span)
      → Tracks size m h
      → SameTimes clock th.clock
      → UpTo h index (tm th.clock index)
      → Ordered Kind.na_read h th.clock
      → (o : Outcome (VClock Span))
      → Returns o (λ d. IsCanonical d × IsUpdated m.read clock index d)
      → Verdict size h
          (read_event index th.clock)
          (lift o >>= λ read. ok (record m { read = read }, record th { clock = clock }))
  recorded_read size h m th index clock t same own ord panic r = r
  recorded_read size h m th index clock t same own ord (ret d) (k, r) =
      let b : tm m.read index ≤ tm th.clock index = t.reads_up_to index (tm th.clock index) own in
      let set : IsUpdated m.read th.clock index d = λ i. ground (arith, r i, same i) in
      (
        ord,
        record {
          ordered = λ kind c closed.
              Records-Ordered m (record m { read = d }) (read_event index th.clock) h kind c
                (Records-read m index th.clock d set b) (t.ordered kind c (closed.1));
          reads_up_to = λ i n u. ground (arith, set i, t.reads_up_to i n (u.1), u.0);
          atomic_reads_up_to = λ i n u. t.atomic_reads_up_to i n (u.1);
          atomic_writes_up_to = λ i n u. t.atomic_writes_up_to i n (u.1);
          reads_canonical = k;
          atomic_reads_canonical = t.atomic_reads_canonical;
          atomic_writes_canonical = t.atomic_writes_canonical;
          one_size = t.one_size;
        },
        λ i. omega (arith, same i),
      )

  check_read-Verdict :
      (size : ℕ) (h : List (Event Span)) (m : MemoryCellClocks Span) (th : ThreadClockSet Span)
      (index : ℕ) (clock : VClock Span)
      → Tracks size m h
      → Causal h index th.clock
      → SameTimes clock th.clock
      → Verdict size h (read_event index th.clock) (check_read m th index clock)
  unfolding check_read
  check_read-Verdict size h m th index clock t c same =
      elim (Bool-cases (write_was_before m clock)) [
        | inr n ↦ rw (n) (λ o. ground (arith, (clear.1 o) Kind.na_write refl, same m.write_index))
        | inl w ↦
            elim (Bool-cases (is_none_or (λ atomic. le atomic.write_vector clock) m.atomic_ops)) [
              | inr n ↦
                  rw (w, n)
                    (λ o.
                      let b = (clear.1 o) Kind.atomic_write refl in
                      true-ne-false (sym ((writes clock).1 (λ i. omega (arith, b i, same i))) ∙ n))
              | inl a ↦
                  rw (w, a)
                    (recorded_read size h m th index clock t same c.own
                      (clear.0 (
                        Clear-na_read m th.clock (ground (arith, same m.write_index))
                          (λ i. omega (arith, (writes clock).0 a i, same i))))
                      (set_at_index m.read clock index)
                      (set_at_index-IsUpdated m.read clock index t.reads_canonical
                        (omega (arith, t.reads_up_to index (tm th.clock index) c.own, same index))))
            ]
      ]
    where
      writes :
          (x : VClock Span)
          → (is_none_or (λ atomic. le atomic.write_vector x) m.atomic_ops ≡ true)
            ↔ Below (atomic_writes m.atomic_ops) x
      writes x = is_none_or-Below m.atomic_ops x t.atomic_writes_canonical

      clear : Clear Kind.na_read m th.clock ↔ Ordered Kind.na_read h th.clock
      clear = t.ordered Kind.na_read th.clock c.closed

  -- A non-atomic read of a cell that tracks its history, and whose atomic accesses, if it keeps any,
  -- had one size, by a thread whose clock fits the history and has a time of its own above 0 and below
  -- 2 ^ 31, does not panic. It is a data race exactly where an
  -- earlier write, atomic or not, is not ordered before it, and else the cell tracks the history with
  -- the read.
  pub non_atomic_read_detect_lem :
      (size : ℕ) (h : List (Event Span)) (m : MemoryCellClocks Span) (th : ThreadClockSet Span)
      (index : ℕ) (read_type : NaReadType) (span : Span)
      → Tracks size m h
      → Causal h index th.clock
      → 0 < tm th.clock index
      → tm th.clock index < 2 ^ 31
      → Verdict size h
          (read_event index th.clock)
          (non_atomic_read_detect m th index read_type span)
  unfolding non_atomic_read_detect
  non_atomic_read_detect_lem size h m th index read_type span t c p b =
      marked_read-Returns (Verdict size h (read_event index th.clock)) th.clock index read_type span
        (check_read m th index) p b
        (λ clock same. check_read-Verdict size h m th index clock t c same)
