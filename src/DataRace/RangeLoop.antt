-- ===== src/DataRace/RangeLoop.antt =====
-- data_race.rs: non-atomic accesses of a range, from those of a cell.
use miri.Base.{
  ℕ, ◌≤◌, ◌<◌, ◌≡◌, refl, sym, subst, ◌⊎◌, inl, inr, true, false, ltb, Option, none, some, List, [],
  ◌∷◌, Bool-cases, arith,
}
use mathlib.Core.Option.{some-injective}
use miri.VectorClock.Timestamp.{Spans}
use miri.VectorClock.{VClock}
use miri.DedupRangeMap.{Elem}
use miri.DedupRangeMap.Lookup.{lookup, covers, IsContiguous, IsContiguous-le, lookup-below}
use miri.DataRace.Orderings.{Checked, panicked, data_race, ok, ◌>>=◌}
use miri.DataRace.Cell.{MemoryCellClocks, ThreadClockSet, State}
use miri.DataRace.History.{Kind, Event, Ordered, Tracks}
use miri.DataRace.Detect.{Causal, SameTimes}
use miri.DataRace.Seen.{event_at}
use miri.DataRace.Ranges.{Ranges, Detect, RangeState, range_loop}

module _ {Span : Type 0} where
  -- the cell of a byte
  abbrev pub cell_at : Ranges Span → ℕ → Option (MemoryCellClocks Span)
  cell_at ranges o = lookup (λ m. m) ranges o

  cell_of_cons :
      (e : Elem (MemoryCellClocks Span)) (w : Ranges Span) (o : ℕ) (m : MemoryCellClocks Span)
      → cell_at (e ∷ w) o ≡ some m
      → ((covers e o ≡ true) × (e.value ≡ m)) ⊎ (cell_at w o ≡ some m)
  cell_of_cons e w o m k = elim (Bool-cases (covers e o)) [
    | inl y ↦ inl (y, some-injective _ _ (rw y at k))
    | inr d ↦ inr (rw d at k)
  ]

-- the offset lies between the two
abbrev pub Between : ℕ → ℕ → ℕ → Type 0
Between start end o = (start ≤ o) × (o < end)

module _ {Span : Type 0} ⦃s : Spans Span⦄ where
  -- the cell of each byte keeps the history of that byte
  abbrev pub AllTrack : ℕ → Ranges Span → (ℕ → List (Event Span)) → Type 0
  AllTrack size ranges h =
      (o : ℕ) (m : MemoryCellClocks Span) → cell_at ranges o ≡ some m → Tracks size m (h o)

  -- for each byte of the range, the access is ordered after those that it conflicts with
  abbrev pub AllOrdered : Kind → ℕ → ℕ → (ℕ → List (Event Span)) → VClock Span → Type 0
  AllOrdered kind start end h c = (o : ℕ) → Between start end o → Ordered kind (h o) c

module _ {Span : Type 0} ⦃s : Spans Span⦄ (size : ℕ) (h : ℕ → List (Event Span)) (kind : Kind)
    (index : ℕ) (c : VClock Span) where
  -- what the check of one cell finds for a byte that it covers
  abbrev pub AtByte : ℕ → Checked (State Span) → Type 0
  AtByte o panicked = ⊥
  AtByte o data_race = ¬ Ordered kind (h o) c
  AtByte o (ok (m, th)) =
      Ordered kind (h o) c × Tracks size m (event_at kind index c ∷ h o) × SameTimes th.clock c

  -- the check of a cell, at a clock of the times of `c`, for each byte whose history it keeps
  abbrev pub Detects : Detect Span → Type 0
  Detects detect =
      (o : ℕ) (m : MemoryCellClocks Span) (th : ThreadClockSet Span)
      → Tracks size m (h o)
      → Causal (h o) index c
      → SameTimes th.clock c
      → AtByte o (detect m th)

  abbrev pub LoopVerdict : ℕ → ℕ → Checked (RangeState Span) → Type 0
  LoopVerdict start end panicked = ⊥
  LoopVerdict start end data_race = ¬ AllOrdered kind start end h c
  LoopVerdict start end (ok (w, th)) =
      AllOrdered kind start end h c
      × IsContiguous start w end
      × AllTrack size w (λ o. event_at kind index c ∷ h o)
      × SameTimes th.clock c

  cons_loop :
      (e : Elem (MemoryCellClocks Span)) (end : ℕ) (m : MemoryCellClocks Span)
      (r : Checked (RangeState Span))
      → e.range.start < e.range.end
      → ((o : ℕ) → Between e.range.start e.range.end o → Ordered kind (h o) c)
      → ((o : ℕ)
          → Between e.range.start e.range.end o
          → Tracks size m (event_at kind index c ∷ h o))
      → e.range.end ≤ end
      → LoopVerdict e.range.end end r
      → LoopVerdict e.range.start end
          (r >>= λ (w, th2). ok (record { range = e.range; value = m } ∷ w, th2))
  cons_loop e end m panicked n o t l v = v
  cons_loop e end m data_race n o t l v = λ all. v (λ i b. all i (omega (arith, b.0), b.1))
  cons_loop e end m (ok (w, th)) n o t l v = (
    λ i b. by_start i b (Bool-cases (ltb i e.range.end)),
    (refl, n, v.1),
    λ i m' k. tracked i m' (cell_of_cons (record { range = e.range; value = m }) w i m' k),
    v.3,
  )
    where
      by_start :
          (i : ℕ)
          → Between e.range.start end i
          → ((ltb i e.range.end ≡ true) ⊎ (ltb i e.range.end ≡ false))
          → Ordered kind (h i) c
      by_start i b (inl y) = o i (b.0, ground arith)
      by_start i b (inr d) = v.0 i (ground arith, b.1)

      tracked :
          (i : ℕ) (m' : MemoryCellClocks Span)
          → ((covers (record { range = e.range; value = m }) i ≡ true) × (m ≡ m'))
            ⊎ (cell_at w i ≡ some m')
          → Tracks size m' (event_at kind index c ∷ h i)
      tracked i m' (inl (y, k)) =
          subst (λ x. Tracks size x (event_at kind index c ∷ h i)) k
            (t i (ground arith, ground arith))
      tracked i m' (inr k) = v.2 i m' k

  -- the check of the first cell, and the loop over the others
  step_loop :
      (detect : Detect Span) (e : Elem (MemoryCellClocks Span)) (v : Ranges Span) (end : ℕ)
      (r : Checked (State Span))
      → e.range.start < e.range.end
      → e.range.end ≤ end
      → ((o : ℕ) → Between e.range.start e.range.end o → AtByte o r)
      → ((th : ThreadClockSet Span)
          → SameTimes th.clock c
          → LoopVerdict e.range.end end (range_loop detect v th))
      → LoopVerdict e.range.start end (
          r >>= λ (m, th1). range_loop detect v th1 >>= λ (w, th2).
          ok (record { range = e.range; value = m } ∷ w, th2))
  step_loop detect e v end panicked n l a rest = a e.range.start (omega arith, n)
  step_loop detect e v end data_race n l a rest =
      λ all. a e.range.start (omega arith, n) (all e.range.start (omega arith, omega arith))
  step_loop detect e v end (ok (m, th)) n l a rest =
      cons_loop e end m (range_loop detect v th) n (λ o b. (a o b).0) (λ o b. (a o b).1) l
        (rest th ((a e.range.start (omega arith, n)).2))

  pub range_loop_lem :
      (detect : Detect Span) (start : ℕ) (v : Ranges Span) (end : ℕ) (th : ThreadClockSet Span)
      → Detects detect
      → IsContiguous start v end
      → AllTrack size v h
      → ((o : ℕ) → Between start end o → Causal (h o) index c)
      → SameTimes th.clock c
      → LoopVerdict start end (range_loop detect v th)
  unfolding range_loop
  range_loop_lem detect start [] end th d k t causal same =
      (λ o b. absurd (omega (arith, b)), k, λ o m e. cc, same)
  range_loop_lem detect start (e ∷ v) end th d k t causal same = rw (sym k.0) (
      step_loop detect e v end (detect e.value th) (k.1) last
        (λ o b.
          d o e.value th (t o e.value (covered o b))
            (causal o (omega (arith, b, k.0), omega (arith, b, last))) same)
        (λ th1 same1.
          range_loop_lem detect e.range.end v end th1 d (k.2) (λ o m q. t o m (later o m q))
            (λ o b. causal o (omega (arith, b, k.0, k.1), b.1)) same1))
    where
      last : e.range.end ≤ end
      last = IsContiguous-le e.range.end v end (k.2)

      covered : (o : ℕ) → Between e.range.start e.range.end o → cell_at (e ∷ v) o ≡ some e.value
      covered o b = let y : covers e o ≡ true = ground arith in rw (y) refl

      later :
          (o : ℕ) (m : MemoryCellClocks Span) → cell_at v o ≡ some m → cell_at (e ∷ v) o ≡ some m
      later o m q = elim (Bool-cases (covers e o)) [
        | inl y ↦
            let z : cell_at v o ≡ none =
              lookup-below (λ x. x) e.range.end v end o (k.2) (ground arith) in
            cc
        | inr f ↦ rw (f) q
      ]
