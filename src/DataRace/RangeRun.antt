-- ===== src/DataRace/RangeRun.antt =====
-- data_race.rs: non-atomic accesses of ranges of an allocation, one after the other.
use miri.Base.{
  ℕ, ◌≡◌, refl, subst, ◌⊎◌, true, false, ltb, leb, if◌then◌else◌, some, List, [], ◌∷◌, Bool-cases,
  inl, inr, arith,
}
use mathlib.Core.Option.{some-injective}
use miri.VectorClock.Timestamp.{Spans, timestamp_zero}
use miri.VectorClock.{VClock, at}
use miri.DedupRangeMap.{new}
use miri.DedupRangeMap.Lookup.{IsContiguous}
use miri.DataRace.Orderings.{allocate}
use miri.DataRace.Cell.{MemoryCellClocks, cell_new}
use miri.DataRace.History.{Event, Tracks}
use miri.DataRace.Write.{write_event, written-Tracks}
use miri.DataRace.Ranges.{
  Ranges, MemoryKind, tracks_allocation, alloc_time, alloc_index, new_allocation,
}
use miri.DataRace.RangeLoop.{cell_at, AllTrack}
use miri.DataRace.RangeOperations.{RangeAccess}

module _ {Span : Type 0} ⦃s : Spans Span⦄ where
  -- the allocation, as the first write of each byte
  abbrev pub alloc_event : MemoryKind → VClock Span → ℕ → ℕ → Event Span
  alloc_event kind clock index main_index =
      if tracks_allocation kind then write_event index clock else write_event main_index []

  -- every byte of a new map has the cell it was made with
  new-AllTrack :
      (size len : ℕ) (cell : MemoryCellClocks Span) (h : List (Event Span))
      → Tracks size cell h
      → AllTrack size (new len cell) (λ o. h)
  unfolding new
  new-AllTrack size len cell h t o m q = elim (Bool-cases (ltb 0 len)) [
    | inr d ↦ let z : cell_at {Span = Span} [] o ≡ some m = rw d at q in cc
    | inl y ↦ by_cover (rw y at q) (Bool-cases (ltb o len))
  ]
    where
      by_cover :
          cell_at (record { range = record { start = 0; end = len }; value = cell } ∷ []) o ≡ some m
          → ((ltb o len ≡ true) ⊎ (ltb o len ≡ false))
          → Tracks size m h
      by_cover k (inl y) =
          let from : leb 0 o ≡ true = ground arith in
          subst (λ x. Tracks size x h) (some-injective _ _ (rw (from, y) at k)) t
      by_cover k (inr d) =
          let from : leb 0 o ≡ true = ground arith in
          let z : cell_at {Span = Span} [] o ≡ some m = rw (from, d) at k in cc

  new-IsContiguous : (len : ℕ) (cell : MemoryCellClocks Span) → IsContiguous 0 (new len cell) len
  unfolding new
  new-IsContiguous len cell = elim (Bool-cases (ltb 0 len)) [
    | inl y ↦ rw (y) (refl, ground arith, refl)
    | inr d ↦ rw (d) (ground arith)
  ]

  new_cell-Tracks :
      (size : ℕ) (kind : MemoryKind) (clock : VClock Span) (index main_index : ℕ) (span : Span)
      → Tracks size
          (cell_new (alloc_time kind clock index span) (alloc_index kind index main_index))
          (alloc_event kind clock index main_index ∷ [])
  unfolding at
  new_cell-Tracks size kind clock index main_index span =
      elim (Bool-cases (tracks_allocation kind)) [
        | inl y ↦ rw (y) (
            written-Tracks size [] index allocate (record (at clock index) { span = span }) clock
              refl tt)
        | inr d ↦
            rw (d) (written-Tracks size [] main_index allocate timestamp_zero [] (omega arith) tt)
      ]

  pub new_allocation-AllTrack :
      (size n : ℕ) (kind : MemoryKind) (clock : VClock Span) (index main_index : ℕ) (span : Span)
      → AllTrack size
          (new_allocation n kind clock index main_index span)
          (λ o. alloc_event kind clock index main_index ∷ [])
  unfolding new_allocation
  new_allocation-AllTrack size n kind clock index main_index span =
      new-AllTrack size n
        (cell_new (alloc_time kind clock index span) (alloc_index kind index main_index))
        (alloc_event kind clock index main_index ∷ [])
        (new_cell-Tracks size kind clock index main_index span)

  pub new_allocation-IsContiguous :
      (n : ℕ) (kind : MemoryKind) (clock : VClock Span) (index main_index : ℕ) (span : Span)
      → IsContiguous 0 (new_allocation n kind clock index main_index span) n
  unfolding new_allocation
  new_allocation-IsContiguous n kind clock index main_index span =
      new-IsContiguous n
        (cell_new (alloc_time kind clock index span) (alloc_index kind index main_index))
