-- ===== src/DataRace/Rmw.antt =====
-- data_race.rs: the check of an atomic read-modify-write.
use miri.Base.{
  true-ne-false, ℕ, ◌≤◌, ◌≡◌, refl, sym, ap, subst, if◌then◌else◌, Option, none, some, List, [],
  ◌∷◌, arith, Bool-cases, inl, inr, leb, leb→le,
}
use miri.VectorClock.Timestamp.{Spans}
use miri.VectorClock.{VClock, join}
use miri.VectorClock.Update.{at-join}
use miri.DataRace.Orderings.{
  AtomicRwOrd, acquires, releases, Checked, panicked, data_race, ok, ◌>>=◌,
}
use miri.DataRace.Cell.{
  MemoryCellClocks, AtomicMemoryCellClocks, ThreadClockSet, State, sync_source,
}
use miri.DataRace.Checks.{
  set_sync, join_with, atomic_read_detect, atomic_write_detect, load_relaxed, load_acquire,
  rmw_relaxed, rmw_release, atomic_rmw,
}
use miri.DataRace.History.{
  Kind, tm, Below, Event, event_time, HappensBefore, Ordered, Closed, UpTo, Tracks,
}
use miri.DataRace.Detect.{Causal}
use miri.DataRace.Parts.{atomic_event, sync_of}
use miri.DataRace.Atomic.{
  CellVerdict, AtomicVerdict, HasSync, atomic_read_detect_lem, atomic_write_detect_lem,
}
use miri.DataRace.Run.{stored-Verdict}

module _ {Span : Type 0} ⦃s : Spans Span⦄ where
  -- the thread's clock after the load
  abbrev pub rmw_clock : AtomicRwOrd → ℕ → MemoryCellClocks Span → VClock Span → VClock Span
  rmw_clock atomic size m c = if acquires atomic then join c (sync_of size m.atomic_ops) else c

  abbrev pub BothOrdered : List (Event Span) → VClock Span → VClock Span → Type 0
  BothOrdered h c x = Ordered Kind.atomic_read h c × Ordered Kind.atomic_write h x

  -- what is to find out of a read with the clock `c` and a write with the clock `x`
  abbrev pub RmwVerdict :
      ℕ → List (Event Span) → ℕ → VClock Span → VClock Span → Checked (State Span) → Type 0
  RmwVerdict size h index c x panicked = ⊥
  RmwVerdict size h index c x data_race = ¬ BothOrdered h c x
  RmwVerdict size h index c x (ok (m, th)) =
      BothOrdered h c x
      × Tracks size m
          (atomic_event Kind.atomic_write index x ∷ atomic_event Kind.atomic_read index c ∷ h)
      × (th.clock ≡ x)

  HappensBefore-join :
      (e : Event Span) (a b : VClock Span)
      → (HappensBefore e a → Below e.clock a)
      → (HappensBefore e b → Below e.clock b)
      → HappensBefore e (join a b)
      → Below e.clock (join a b)
  HappensBefore-join e a b p q hb i = elim (Bool-cases (leb (event_time e) (tm a e.index))) [
    | inl l ↦ omega (arith, at-join a b i, p (leb→le _ _ l) i)
    | inr n ↦ omega (arith, at-join a b i, q (ground (arith, n, at-join a b e.index)) i)
  ]

  Closed-join :
      (h : List (Event Span)) (a b : VClock Span) → Closed h a → Closed h b → Closed h (join a b)
  Closed-join [] a b p q = tt
  Closed-join (e ∷ h) a b p q =
      (HappensBefore-join e a b (p.0) (q.0), Closed-join h a b (p.1) (q.1))

  Below-join : (a b : VClock Span) → Below a (join a b)
  Below-join a b i = omega (arith, at-join a b i)

  UpTo-weaken : (h : List (Event Span)) (i n k : ℕ) → UpTo h i n → n ≤ k → UpTo h i k
  UpTo-weaken [] i n k u b = tt
  UpTo-weaken (e ∷ h) i n k u b = (λ same. omega (arith, u.0 same), UpTo-weaken h i n k (u.1) b)

  later-Causal :
      (h : List (Event Span)) (kind : Kind) (index : ℕ) (c x : VClock Span)
      → Causal h index c
      → Closed h x
      → Below c x
      → Causal (atomic_event kind index c ∷ h) index x
  later-Causal h kind index c x k closed b = record {
    own = (λ same. b index, UpTo-weaken h index (tm c index) (tm x index) k.own (b index));
    closed = (λ hb. b, closed);
  }

  written-RmwVerdict :
      (size : ℕ) (h : List (Event Span)) (index : ℕ) (c x : VClock Span) (th : ThreadClockSet Span)
      (o : Checked (MemoryCellClocks Span))
      → Ordered Kind.atomic_read h c
      → th.clock ≡ x
      → CellVerdict size
          (atomic_event Kind.atomic_read index c ∷ h)
          (atomic_event Kind.atomic_write index x)
          o
      → RmwVerdict size h index c x (o >>= λ m. ok (m, th))
  written-RmwVerdict size h index c x th panicked ord e v = v
  written-RmwVerdict size h index c x th data_race ord e v =
      λ both. v (λ q. absurd (true-ne-false (sym q)), both.1)
  written-RmwVerdict size h index c x th (ok m) ord e v = ((ord, v.0.1), v.1, e)

  -- the two checks, with what the load does to the thread's clocks and the store to the cell's
  checks-RmwVerdict :
      (size : ℕ) (h : List (Event Span)) (index : ℕ) (c x sync : VClock Span)
      (after : MemoryCellClocks Span → ThreadClockSet Span)
      (f : ThreadClockSet Span → VClock Span → VClock Span) (o : Checked (MemoryCellClocks Span))
      → AtomicVerdict sync size h (atomic_event Kind.atomic_read index c) o
      → ((m : MemoryCellClocks Span) → HasSync sync m.atomic_ops → let th = after m in th.clock ≡ x)
      → Causal (atomic_event Kind.atomic_read index c ∷ h) index x
      → RmwVerdict size h index c x (
          (o >>= λ m. ok (m, after m)) >>= λ (m, th).
          (atomic_write_detect m th.clock index size >>= set_sync (f th)) >>= λ m1. ok (m1, th))
  checks-RmwVerdict size h index c x sync after f panicked v e k = v
  checks-RmwVerdict size h index c x sync after f data_race v e k = λ both. v (both.0)
  checks-RmwVerdict size h index c x sync after f (ok m) v e k =
      let th = after m in
      let same : th.clock ≡ x = e m (v.2) in
      written-RmwVerdict size h index c x th
        (atomic_write_detect m th.clock index size >>= set_sync (f th)) (v.0) same
        (subst
          (λ clock.
            CellVerdict size (atomic_event Kind.atomic_read index c ∷ h)
              (atomic_event Kind.atomic_write index x)
              (atomic_write_detect m clock index size >>= set_sync (f th)))
          (sym same)
          (stored-Verdict size (atomic_event Kind.atomic_read index c ∷ h)
            (atomic_event Kind.atomic_write index x) (sync_of size m.atomic_ops) (f th)
            (atomic_write_detect m x index size)
            (atomic_write_detect_lem size (atomic_event Kind.atomic_read index c ∷ h) m x index
              (v.1) k)))

  acquired :
      (sync c : VClock Span) (o : Option (AtomicMemoryCellClocks Span))
      → HasSync sync o
      → join_with (sync_source none o) c ≡ join c sync
  acquired sync c none h = absurd h
  acquired sync c (some atomic) h = ap (λ v. join c v) h

  acquire-RmwVerdict :
      (size : ℕ) (h : List (Event Span)) (m : MemoryCellClocks Span) (th : ThreadClockSet Span)
      (index : ℕ) (f : ThreadClockSet Span → VClock Span → VClock Span)
      → Tracks size m h
      → Causal h index th.clock
      → Closed h (sync_of size m.atomic_ops)
      → RmwVerdict size h index th.clock (join th.clock (sync_of size m.atomic_ops)) (
          load_acquire m th index size none >>= λ (m', th').
          (atomic_write_detect m' th'.clock index size >>= set_sync (f th')) >>= λ m1. ok (m1, th'))
  unfolding load_acquire
  acquire-RmwVerdict size h m th index f t c k =
      let sync = sync_of size m.atomic_ops in
      checks-RmwVerdict size h index th.clock (join th.clock sync) sync
        (λ m'. record th { clock = join_with (sync_source none m'.atomic_ops) th.clock }) f
        (atomic_read_detect m th.clock index size)
        (atomic_read_detect_lem size h m th.clock index t c)
        (λ m' e. acquired sync th.clock m'.atomic_ops e)
        (later-Causal h Kind.atomic_read index th.clock (join th.clock sync) c
          (Closed-join h th.clock sync c.closed k) (Below-join th.clock sync))

  relaxed-RmwVerdict :
      (size : ℕ) (h : List (Event Span)) (m : MemoryCellClocks Span) (th : ThreadClockSet Span)
      (index : ℕ) (f : ThreadClockSet Span → VClock Span → VClock Span)
      → Tracks size m h
      → Causal h index th.clock
      → RmwVerdict size h index th.clock th.clock (
          load_relaxed m th index size none >>= λ (m', th').
          (atomic_write_detect m' th'.clock index size >>= set_sync (f th')) >>= λ m1. ok (m1, th'))
  unfolding load_relaxed
  relaxed-RmwVerdict size h m th index f t c =
      checks-RmwVerdict size h index th.clock th.clock (sync_of size m.atomic_ops)
        (λ m'. record th {
          fence_acquire = join_with (sync_source none m'.atomic_ops) th.fence_acquire;
        })
        f (atomic_read_detect m th.clock index size)
        (atomic_read_detect_lem size h m th.clock index t c) (λ m' e. refl)
        (later-Causal h Kind.atomic_read index th.clock th.clock c c.closed (λ i. omega arith))

  -- An atomic read-modify-write of a cell that tracks its history, and whose atomic accesses, if it
  -- keeps any, all had the size of this one, by a thread whose clock fits the history, where the clock
  -- it synchronizes with fits the history too, does not panic. It is a data race exactly where an earlier non-atomic write is
  -- not ordered before the thread's clock, or an earlier non-atomic access not before the clock it has
  -- once it has acquired. Else the thread's clock is that one, and the cell tracks both accesses.
  pub atomic_rmw_lem :
      (size : ℕ) (h : List (Event Span)) (m : MemoryCellClocks Span) (th : ThreadClockSet Span)
      (index : ℕ) (atomic : AtomicRwOrd)
      → Tracks size m h
      → Causal h index th.clock
      → Closed h (sync_of size m.atomic_ops)
      → RmwVerdict size h index th.clock
          (rmw_clock atomic size m th.clock)
          (atomic_rmw atomic m th index size)
  unfolding atomic_rmw rmw_release rmw_relaxed
  atomic_rmw_lem size h m th index atomic t c k = elim (Bool-cases (acquires atomic)) [
    | inl a ↦ elim (Bool-cases (releases atomic)) [
      | inl r ↦
          rw (a, r) (acquire-RmwVerdict size h m th index (λ th' sync. join sync th'.clock) t c k)
      | inr r ↦
          rw (a, r)
            (acquire-RmwVerdict size h m th index (λ th' sync. join sync th'.fence_release) t c k)
    ]
    | inr a ↦ elim (Bool-cases (releases atomic)) [
      | inl r ↦
          rw (a, r) (relaxed-RmwVerdict size h m th index (λ th' sync. join sync th'.clock) t c)
      | inr r ↦
          rw (a, r)
            (relaxed-RmwVerdict size h m th index (λ th' sync. join sync th'.fence_release) t c)
    ]
  ]
