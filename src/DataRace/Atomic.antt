-- ===== src/DataRace/Atomic.antt =====
-- data_race.rs: the checks of atomic accesses, where all of them have one size.
use miri.Base.{
  true-ne-false, ℕ, ◌≡◌, refl, sym, ◌∙◌, ◌↔◌, true, false, ◌&&◌, Option, none, some, List, ◌∷◌,
  Outcome, panic, ret, Returns, arith, Bool-cases, inl, inr, leb→le, le→leb,
}
use miri.VectorClock.Timestamp.{Spans}
use miri.VectorClock.{VClock, set_at_index, le}
use miri.VectorClock.Canonical.{IsCanonical}
use miri.DataRace.Orderings.{Checked, panicked, data_race, ok, ◌>>=◌, lift, ok_if}
use miri.DataRace.Cell.{MemoryCellClocks, AtomicMemoryCellClocks}
use miri.DataRace.Checks.{write_was_before, atomic_read_detect, atomic_write_detect}
use miri.DataRace.History.{Kind, tm, Below, Event, Ordered, Tracks, Records-Ordered}
use miri.DataRace.Clocks.{IsUpdated, set_at_index-IsUpdated, le-Below}
use miri.DataRace.Detect.{Causal}
use miri.DataRace.Parts.{
  atomic_event, known, sync_of, with_atomic, atomic_access_lem, known-Tracks, Records-atomic_read,
  Records-atomic_write, Clear-atomic_read, Clear-atomic_write,
}

module _ {Span : Type 0} ⦃s : Spans Span⦄ where
  -- as `Verdict`, for a check that gives only the cell
  abbrev pub CellVerdict :
      ℕ → List (Event Span) → Event Span → Checked (MemoryCellClocks Span) → Type 0
  CellVerdict size h e panicked = ⊥
  CellVerdict size h e data_race = ¬ Ordered e.kind h e.clock
  CellVerdict size h e (ok m) = Ordered e.kind h e.clock × Tracks size m (e ∷ h)

  abbrev pub HasSync : VClock Span → Option (AtomicMemoryCellClocks Span) → Type 0
  HasSync sync none = ⊥
  HasSync sync (some atomic) = atomic.sync_vector ≡ sync

  -- as `CellVerdict`, and the cell has an atomic part with the clock to synchronize with
  abbrev pub AtomicVerdict :
      VClock Span → ℕ → List (Event Span) → Event Span → Checked (MemoryCellClocks Span) → Type 0
  AtomicVerdict sync size h e panicked = ⊥
  AtomicVerdict sync size h e data_race = ¬ Ordered e.kind h e.clock
  AtomicVerdict sync size h e (ok m) =
      Ordered e.kind h e.clock × Tracks size m (e ∷ h) × HasSync sync m.atomic_ops

  recorded_atomic_read :
      (size : ℕ) (h : List (Event Span)) (m : MemoryCellClocks Span)
      (atomic : AtomicMemoryCellClocks Span) (clock : VClock Span) (index : ℕ)
      → Tracks size (with_atomic m atomic) h
      → Causal h index clock
      → (o : Outcome (VClock Span))
      → Returns o (λ d. IsCanonical d × IsUpdated atomic.read_vector clock index d)
      → AtomicVerdict atomic.sync_vector size h (atomic_event Kind.atomic_read index clock) (
          lift o >>= λ d.
          ok_if (write_was_before m clock) (with_atomic m (record atomic { read_vector = d })))
  recorded_atomic_read size h m atomic clock index t c panic r = r
  recorded_atomic_read size h m atomic clock index t c (ret d) (k, set) =
      elim (Bool-cases (write_was_before m clock)) [
        | inr n ↦ rw (n) (λ o.
            let b = (t.ordered Kind.atomic_read clock c.closed).1 o Kind.na_write refl in
            true-ne-false (sym (le→leb _ _ b) ∙ n))
        | inl w ↦ rw (w) (
          (t.ordered Kind.atomic_read clock c.closed).0
              (Clear-atomic_read (with_atomic m atomic) clock (leb→le _ _ w)),
          record {
            ordered = λ kind x closed.
                Records-Ordered (with_atomic m atomic)
                  (with_atomic m (record atomic { read_vector = d }))
                  (atomic_event Kind.atomic_read index clock) h kind x
                  (Records-atomic_read m atomic index clock d set
                    (t.atomic_reads_up_to index (tm clock index) c.own))
                  (t.ordered kind x (closed.1));
            reads_up_to = λ i n u. t.reads_up_to i n (u.1);
            atomic_reads_up_to =
                λ i n u. ground (arith, set i, t.atomic_reads_up_to i n (u.1), u.0);
            atomic_writes_up_to = λ i n u. t.atomic_writes_up_to i n (u.1);
            reads_canonical = t.reads_canonical;
            atomic_reads_canonical = k;
            atomic_writes_canonical = t.atomic_writes_canonical;
            one_size = t.one_size;
          },
          refl,
        )
      ]

  recorded_atomic_write :
      (size : ℕ) (h : List (Event Span)) (m : MemoryCellClocks Span)
      (atomic : AtomicMemoryCellClocks Span) (clock : VClock Span) (index : ℕ)
      → Tracks size (with_atomic m atomic) h
      → Causal h index clock
      → (o : Outcome (VClock Span))
      → Returns o (λ d. IsCanonical d × IsUpdated atomic.write_vector clock index d)
      → AtomicVerdict atomic.sync_vector size h (atomic_event Kind.atomic_write index clock) (
          lift o >>= λ d.
          ok_if
            (write_was_before m clock && le m.read clock)
            (with_atomic m (record atomic { write_vector = d })))
  recorded_atomic_write size h m atomic clock index t c panic r = r
  recorded_atomic_write size h m atomic clock index t c (ret d) (k, set) =
      elim (Bool-cases (write_was_before m clock && le m.read clock)) [
        | inr n ↦ rw (n) (λ o.
            let q = (t.ordered Kind.atomic_write clock c.closed).1 o in
            let w : write_was_before m clock ≡ true = le→leb _ _ (q Kind.na_write refl) in
            let r : le m.read clock ≡ true = reads.1 (q Kind.na_read refl) in ground (arith, w, r))
        | inl b ↦ rw (b) (
          (t.ordered Kind.atomic_write clock c.closed).0 (
              Clear-atomic_write (with_atomic m atomic) clock (ground (arith, b))
                (reads.0 (ground (arith, b)))),
          record {
            ordered = λ kind x closed.
                Records-Ordered (with_atomic m atomic)
                  (with_atomic m (record atomic { write_vector = d }))
                  (atomic_event Kind.atomic_write index clock) h kind x
                  (Records-atomic_write m atomic index clock d set
                    (t.atomic_writes_up_to index (tm clock index) c.own))
                  (t.ordered kind x (closed.1));
            reads_up_to = λ i n u. t.reads_up_to i n (u.1);
            atomic_reads_up_to = λ i n u. t.atomic_reads_up_to i n (u.1);
            atomic_writes_up_to =
                λ i n u. ground (arith, set i, t.atomic_writes_up_to i n (u.1), u.0);
            reads_canonical = t.reads_canonical;
            atomic_reads_canonical = t.atomic_reads_canonical;
            atomic_writes_canonical = k;
            one_size = t.one_size;
          },
          refl,
        )
      ]
    where
      reads : (le m.read clock ≡ true) ↔ Below m.read clock
      reads = le-Below m.read clock t.reads_canonical

  -- An atomic read of a cell that tracks its history, with the size of the atomic accesses before it,
  -- does not panic. It is a data race exactly where an earlier non-atomic write is not ordered before
  -- it, and else the cell tracks the history with the read.
  pub atomic_read_detect_lem :
      (size : ℕ) (h : List (Event Span)) (m : MemoryCellClocks Span) (clock : VClock Span)
      (index : ℕ)
      → Tracks size m h
      → Causal h index clock
      → AtomicVerdict
          (sync_of size m.atomic_ops)
          size
          h
          (atomic_event Kind.atomic_read index clock)
          (atomic_read_detect m clock index size)
  unfolding atomic_read_detect
  atomic_read_detect_lem size h m clock index t c =
      rw (atomic_access_lem size m.atomic_ops clock false t.one_size) (
        recorded_atomic_read size h m atomic clock index t' c
          (set_at_index atomic.read_vector clock index)
          (set_at_index-IsUpdated atomic.read_vector clock index t'.atomic_reads_canonical
            (t'.atomic_reads_up_to index (tm clock index) c.own)))
    where
      atomic : AtomicMemoryCellClocks Span
      atomic = known size m.atomic_ops

      t' : Tracks size (with_atomic m (known size m.atomic_ops)) h
      t' = known-Tracks size m h m.atomic_ops t

  -- An atomic write of a cell that tracks its history, with the size of the atomic accesses before it,
  -- does not panic. It is a data race exactly where an earlier non-atomic access is not ordered before
  -- it, and else the cell tracks the history with the write.
  pub atomic_write_detect_lem :
      (size : ℕ) (h : List (Event Span)) (m : MemoryCellClocks Span) (clock : VClock Span)
      (index : ℕ)
      → Tracks size m h
      → Causal h index clock
      → AtomicVerdict
          (sync_of size m.atomic_ops)
          size
          h
          (atomic_event Kind.atomic_write index clock)
          (atomic_write_detect m clock index size)
  unfolding atomic_write_detect
  atomic_write_detect_lem size h m clock index t c =
      rw (atomic_access_lem size m.atomic_ops clock true t.one_size) (
        recorded_atomic_write size h m atomic clock index t' c
          (set_at_index atomic.write_vector clock index)
          (set_at_index-IsUpdated atomic.write_vector clock index t'.atomic_writes_canonical
            (t'.atomic_writes_up_to index (tm clock index) c.own)))
    where
      atomic : AtomicMemoryCellClocks Span
      atomic = known size m.atomic_ops

      t' : Tracks size (with_atomic m (known size m.atomic_ops)) h
      t' = known-Tracks size m h m.atomic_ops t
