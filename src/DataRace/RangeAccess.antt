-- ===== src/DataRace/RangeAccess.antt =====
-- data_race.rs: a non-atomic access of a range of an allocation, whose cells are split and merged by
-- `DedupRangeMap`.
use miri.Base.{
  ℕ, ◌+◌, ◌≤◌, ◌<◌, ◌≡◌, refl, sym, ap, ◌∙◌, ◌⊎◌, inl, inr, true, false, ◌&&◌, ltb, leb,
  if◌then◌else◌, Option, none, some, List, [], ◌∷◌, ◌++◌, Outcome, panic, ret, Returns, Bool-cases,
  arith, subst,
}
use mathlib.Core.Option.{some-injective}
use miri.VectorClock.Timestamp.{Spans}
use miri.DedupRangeMap.{SliceMut, u64_mod, iter_mut}
use miri.DedupRangeMap.Lookup.{
  lookup, covers, IsContiguous, IsContiguous-le, IsContiguous-append, lookup-below, lookup-beyond,
}
use miri.DedupRangeMap.IterMut.{iter_mut_lem}
use miri.DedupRangeMap.Slice.{IsSlice}
use miri.DedupRangeMap.Update.{lookup-parts}
use miri.DataRace.Orderings.{Checked, panicked, data_race, ok, ◌>>=◌, lift}
use miri.DataRace.Cell.{MemoryCellClocks, ThreadClockSet}
use miri.DataRace.CellEq.{Seen, seen, cell_eq, cell_eq-seen}
use miri.DataRace.History.{Kind, Event, Tracks}
use miri.DataRace.Detect.{Causal, SameTimes}
use miri.DataRace.Seen.{event_at, seen-Tracks}
use miri.DataRace.Ranges.{Ranges, Detect, RangeState, range_loop, access_range}
use miri.DataRace.RangeLoop.{
  cell_at, Between, AllTrack, AllOrdered, Detects, LoopVerdict, range_loop_lem,
}

module _ {Span : Type 0} where
  seen_at : Ranges Span → ℕ → Option Seen
  seen_at ranges o = lookup seen ranges o

  -- what is seen of a byte's cell
  seen-cell :
      (ranges : Ranges Span) (o : ℕ) (m : MemoryCellClocks Span)
      → cell_at ranges o ≡ some m
      → lookup seen ranges o ≡ some (seen m)
  seen-cell [] o m h = cc
  seen-cell (e ∷ v) o m h = elim (Bool-cases (covers e o)) [
    | inl y ↦ rw (y) (ap (λ x. some (seen x)) (some-injective _ _ (rw y at h)))
    | inr d ↦ rw (d) (seen-cell v o m (rw d at h))
  ]

  cell-seen :
      (ranges : Ranges Span) (o : ℕ) (x : Seen)
      → lookup seen ranges o ≡ some x
      → (m : MemoryCellClocks Span) × (cell_at ranges o ≡ some m) × (seen m ≡ x)
  cell-seen [] o x h = cc
  cell-seen (e ∷ v) o x h = elim (Bool-cases (covers e o)) [
    | inl y ↦ (e.value, rw (y) refl, some-injective _ _ (rw y at h))
    | inr d ↦ let r = cell-seen v o x (rw d at h) in (r.0, rw (d) r.1, r.2)
  ]

module _ {Span : Type 0} ⦃s : Spans Span⦄ where
  -- cells that look the same at each byte keep the same histories
  AllTrack-seen :
      (size : ℕ) (v w : Ranges Span) (h : ℕ → List (Event Span))
      → ((o : ℕ) → lookup seen w o ≡ lookup seen v o)
      → AllTrack size v h
      → AllTrack size w h
  AllTrack-seen size v w h e t o m k =
      let r = cell-seen v o (seen m) (sym (e o) ∙ seen-cell w o m k) in
      seen-Tracks size (r.0) m (h o) (r.2) (t o (r.0) (r.1))

  -- the histories after an access of the bytes between the two
  abbrev pub with_access : ℕ → ℕ → Event Span → (ℕ → List (Event Span)) → ℕ → List (Event Span)
  with_access start end e h o = if leb start o && ltb o end then e ∷ h o else h o

  -- The access does not panic. It is an error where at some byte an access that it conflicts with
  -- is not ordered before it, and else the cell of each byte keeps the history with the access.
  abbrev pub RangeVerdict :
      ℕ → ℕ → (ℕ → List (Event Span)) → ℕ → ℕ → Event Span → Checked (RangeState Span) → Type 0
  RangeVerdict size n h start end e panicked = ⊥
  RangeVerdict size n h start end e data_race = ¬ AllOrdered e.kind start end h e.clock
  RangeVerdict size n h start end e (ok (w, th)) =
      AllOrdered e.kind start end h e.clock
      × IsContiguous 0 w n
      × AllTrack size w (with_access start end e h)
      × SameTimes th.clock e.clock

  -- a slice has cells for its own bytes only
  slice-Between :
      (q : Ranges Span) (a b : ℕ)
      → IsContiguous a q b
      → (o : ℕ) (m : MemoryCellClocks Span) → cell_at q o ≡ some m
      → Between a b o
  slice-Between q a b cq o m k = elim (Bool-cases (ltb o a)) [
    | inl y ↦ let z : cell_at q o ≡ none = lookup-below (λ x. x) a q b o cq (ground arith) in cc
    | inr d ↦ elim (Bool-cases (ltb o b)) [
      | inl y ↦ (ground arith, ground arith)
      | inr f ↦ let z : cell_at q o ≡ none = lookup-beyond (λ x. x) a q b o cq (ground arith) in cc
    ]
  ]

  module _ (p q r : Ranges Span) (a b n : ℕ) (cp : IsContiguous 0 p a) (cq : IsContiguous a q b)
      (cr : IsContiguous b r n) where
    -- the cell of a byte, by the part that the byte lies in
    before_cell : (o : ℕ) → o < a → cell_at (p ++ (q ++ r)) o ≡ cell_at p o
    before_cell o l =
        let y : ltb o a ≡ true = ground arith in
        rw (y) at (lookup-parts (λ m. m) p q r a b n o cp cq cr)

    slice_cell : (o : ℕ) → Between a b o → cell_at (p ++ (q ++ r)) o ≡ cell_at q o
    slice_cell o l =
        let d : ltb o a ≡ false = ground arith in
        let y : ltb o b ≡ true = ground arith in
        rw (d, y) at (lookup-parts (λ m. m) p q r a b n o cp cq cr)

    after_cell : (o : ℕ) → b ≤ o → cell_at (p ++ (q ++ r)) o ≡ cell_at r o
    after_cell o l =
        let d : ltb o a ≡ false = ground (arith, IsContiguous-le a q b cq) in
        let e : ltb o b ≡ false = ground arith in
        rw (d, e) at (lookup-parts (λ m. m) p q r a b n o cp cq cr)

  module _ (size : ℕ) (h : ℕ → List (Event Span)) (kind : Kind) (index : ℕ)
      (th : ThreadClockSet Span) (ranges : Ranges Span) (start end n : ℕ) where
    -- the histories of the cells that the slice consists of
    slice-AllTrack :
        (t : SliceMut (MemoryCellClocks Span))
        → IsSlice seen start end n ranges t
        → AllTrack size ranges h
        → AllTrack size t.slice h
    slice-AllTrack t i k o m e =
        let b : Between start end o = slice-Between t.slice start end i.slice-IsContiguous o m e in
        AllTrack-seen size ranges (t.before ++ (t.slice ++ t.after)) h i.same k o m (
          slice_cell t.before t.slice t.after start end n i.before-IsContiguous i.slice-IsContiguous
            i.after-IsContiguous o b
          ∙ e)

    -- the loop over the slice, and the map with the new slice
    written_back :
        (t : SliceMut (MemoryCellClocks Span))
        → IsSlice seen start end n ranges t
        → AllTrack size ranges h
        → (r : Checked (RangeState Span)) → LoopVerdict size h kind index th.clock start end r
        → RangeVerdict size n h start end
            (event_at kind index th.clock)
            (r >>= λ (w, th'). ok (t.before ++ (w ++ t.after), th'))
    written_back t i k panicked v = v
    written_back t i k data_race v = v
    written_back t i k (ok (w, th')) v = (
      v.0,
      IsContiguous-append 0 t.before start (w ++ t.after) n i.before-IsContiguous
          (IsContiguous-append start w end t.after n (v.1) i.after-IsContiguous),
      λ o m e. tracked o m e (Bool-cases (ltb o start)) (Bool-cases (ltb o end)),
      v.3,
    )
      where
        old : AllTrack size (t.before ++ (t.slice ++ t.after)) h
        old = AllTrack-seen size ranges (t.before ++ (t.slice ++ t.after)) h i.same k

        tracked :
            (o : ℕ) (m : MemoryCellClocks Span)
            → cell_at (t.before ++ (w ++ t.after)) o ≡ some m
            → ((ltb o start ≡ true) ⊎ (ltb o start ≡ false))
            → ((ltb o end ≡ true) ⊎ (ltb o end ≡ false))
            → Tracks size m (with_access start end (event_at kind index th.clock) h o)
        tracked o m e (inl y) u =
            let out : leb start o ≡ false = ground arith in
            rw (out) (
              old o m (
                before_cell t.before t.slice t.after start end n i.before-IsContiguous
                  i.slice-IsContiguous i.after-IsContiguous o (ground arith)
                ∙ sym (
                    before_cell t.before w t.after start end n i.before-IsContiguous (v.1)
                      i.after-IsContiguous o (ground arith))
                ∙ e))
        tracked o m e (inr d) (inl y) =
            let from : leb start o ≡ true = ground arith in
            rw (from, y)
              (v.2 o m (
                sym (
                  slice_cell t.before w t.after start end n i.before-IsContiguous (v.1)
                    i.after-IsContiguous o (ground arith, ground arith))
                ∙ e))
        tracked o m e (inr d) (inr f) =
            let from : leb start o ≡ true = ground arith in
            rw (from, f)
              (old o m (
                after_cell t.before t.slice t.after start end n i.before-IsContiguous
                  i.slice-IsContiguous i.after-IsContiguous o (ground arith)
                ∙ sym (
                    after_cell t.before w t.after start end n i.before-IsContiguous (v.1)
                      i.after-IsContiguous o (ground arith))
                ∙ e))

    pub access_range_lem :
        (detect : Detect Span)
        → Detects size h kind index th.clock detect
        → IsContiguous 0 ranges n
        → AllTrack size ranges h
        → ((o : ℕ) → Between start end o → Causal (h o) index th.clock)
        → (len : ℕ) → start + len ≡ end
        → 0 < len
        → end ≤ n
        → n < u64_mod
        → RangeVerdict size n h start end
            (event_at kind index th.clock)
            (access_range detect ranges th start len)
    unfolding access_range
    access_range_lem detect d c k causal len e p l b =
        by_slice (iter_mut cell_eq ranges start len) (
          subst (λ x. Returns (iter_mut cell_eq ranges start len) (IsSlice seen start x n ranges)) e
            (iter_mut_lem seen cell_eq cell_eq-seen ranges n start len c p (omega arith) b))
      where
        by_slice :
            (o : Outcome (SliceMut (MemoryCellClocks Span)))
            → Returns o (IsSlice seen start end n ranges)
            → RangeVerdict size n h start end (event_at kind index th.clock) (do
              t ← lift o
              (w, th') ← range_loop detect t.slice th
              ok (t.before ++ (w ++ t.after), th'))
        by_slice panic i = i
        by_slice (ret t) i = written_back t i k (range_loop detect t.slice th) (
            range_loop_lem size h kind index th.clock detect start t.slice end th d
              i.slice-IsContiguous (slice-AllTrack t i k) causal (λ j. refl))
