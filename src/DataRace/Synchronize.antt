-- ===== src/DataRace/Synchronize.antt =====
-- data_race.rs: what synchronizing does to the clocks of `GlobalState`.
use miri.Base.{
  ℕ, ◌+◌, ◌-◌, ◌^◌, ◌≤◌, ◌<◌, ◌≡◌, refl, sym, ◌∙◌, subst, ◌==◌, if◌then◌else◌, some, List,
  get_elem?, set_elem, get-set_same, Outcome, panic, ret, ◌>>=◌, Returns, arith, Bool-cases, inl,
  inr, max, ==_iff,
}
use mathlib.Core.Option.{some-injective}
use miri.VectorClock.Timestamp.{Spans}
use miri.VectorClock.{VClock, join, increment_index}
use miri.VectorClock.Update.{at-join, increment_index_times}
use miri.DataRace.Cell.{ThreadClockSet}
use miri.DataRace.History.{tm}
use miri.DataRace.Threads.{GlobalState, with_clocks, acquire_clock, release_clock, increment_clock}
use miri.DataRace.Epochs.{
  epoch, Released, Private, IsValid, Runs, epoch-set_elem, epoch-get, Released-grows,
  with_clocks-IsValid,
}

module _ {Span : Type 0} ⦃s : Spans Span⦄ where
  -- the clocks after an increment: one more at the index, and all else as it was
  abbrev pub Ticked : ThreadClockSet Span → ℕ → ThreadClockSet Span → Type 0
  Ticked x i y =
      ((k : ℕ) → tm y.clock k ≡ (if i == k then tm x.clock k + 1 else tm x.clock k))
      × (y.fence_acquire ≡ x.fence_acquire)
      × (y.fence_release ≡ x.fence_release)

  pub increment_clock-Ticked :
      (x : ThreadClockSet Span) (i : ℕ) (span : Span)
      → tm x.clock i + 1 < 2 ^ 31
      → Returns (increment_clock x i span) (Ticked x i)
  unfolding increment_clock
  increment_clock-Ticked x i span b =
      go (increment_index x.clock i span) (increment_index_times x.clock i span b)
    where
      go :
          (o : Outcome (VClock Span))
          → Returns o (λ d. (k : ℕ) → tm d k ≡ (if i == k then tm x.clock k + 1 else tm x.clock k))
          → Returns (o >>= λ d. ret (record x { clock = d })) (Ticked x i)
      go panic r = r
      go (ret d) r = (r, refl, refl)

  -- the times of a clock are past ones, or those of the clocks `y` at the index
  abbrev pub Within : List (ThreadClockSet Span) → ℕ → ThreadClockSet Span → VClock Span → Type 0
  Within l i y c = (k : ℕ) → tm c k ≤ (if i == k then tm y.clock k else epoch l k - 1)

  pub record AllWithin (l : List (ThreadClockSet Span)) (i : ℕ) (y : ThreadClockSet Span)
      : Type 0 where
    pub clock : Within l i y y.clock
    pub acquiring : Within l i y y.fence_acquire
    pub releasing : Within l i y y.fence_release

  -- what a thread has may be released once its clock is incremented
  pub tick-Released :
      (l : List (ThreadClockSet Span)) (i : ℕ) (x y z : ThreadClockSet Span) (c : VClock Span)
      → get_elem? l i ≡ some x
      → Ticked y i z
      → Within l i y c
      → Released (set_elem l i z) c
  tick-Released l i x y z c e t w k = ground (arith, w k, t.0 k, epoch-set_elem l i k x z e)

  pub tick-Private :
      (l : List (ThreadClockSet Span)) (i : ℕ) (x y z : ThreadClockSet Span)
      → get_elem? l i ≡ some x
      → AllWithin l i y
      → Ticked y i z
      → Private (set_elem l i z) i z
  tick-Private l i x y z e p t = record {
    others = λ k ne. elim (Bool-cases (i == k)) [
      | inl m ↦ absurd (ne (sym ((==_iff i k).0 m)))
      | inr n ↦ ground (arith, p.clock k, t.0 k, epoch-set_elem l i k x z e, n)
    ];
    acquiring =
        subst (Released (set_elem l i z)) (sym (t.1))
          (tick-Released l i x y z y.fence_acquire e t p.acquiring);
    releasing =
        subst (Released (set_elem l i z)) (sym (t.2))
          (tick-Released l i x y z y.fence_release e t p.releasing);
  }

  pub Released-Within :
      (l : List (ThreadClockSet Span)) (i : ℕ) (x y : ThreadClockSet Span) (c : VClock Span)
      → get_elem? l i ≡ some x
      → tm x.clock i ≤ tm y.clock i
      → Released l c
      → Within l i y c
  Released-Within l i x y c e b r k = elim (Bool-cases (i == k)) [
    | inl m ↦
        subst (λ n. tm c n ≤ (if i == n then tm y.clock n else epoch l n - 1)) ((==_iff i k).0 m)
          (ground (arith, r i, epoch-get l i x e, b))
    | inr n ↦ ground (arith, r k, n)
  ]

  pub Private-AllWithin :
      (l : List (ThreadClockSet Span)) (i : ℕ) (x : ThreadClockSet Span)
      → get_elem? l i ≡ some x
      → Private l i x
      → AllWithin l i x
  Private-AllWithin l i x e p = record {
    clock = λ k. elim (Bool-cases (i == k)) [
      | inl m ↦ ground (arith, m)
      | inr n ↦ ground (arith, n, p.others k (λ q. ground (arith, n, q)))
    ];
    acquiring = Released-Within l i x x x.fence_acquire e (omega arith) p.acquiring;
    releasing = Released-Within l i x x x.fence_release e (omega arith) p.releasing;
  }

  -- A thread gets the clocks `y`, then its clock is incremented.
  pub tick-IsValid :
      (g : GlobalState Span) (i : ℕ) (x y z : ThreadClockSet Span) (fence : VClock Span)
      → IsValid g
      → get_elem? g.vector_clocks i ≡ some x
      → tm x.clock i ≤ tm y.clock i
      → AllWithin g.vector_clocks i y
      → Within g.vector_clocks i y fence
      → Ticked y i z
      → IsValid (with_clocks (record g { last_sc_fence = fence }) i z)
  tick-IsValid g i x y z fence v e b p f t =
      let w =
        with_clocks-IsValid g i x z v e (ground (arith, t.0 i, b))
          (tick-Private g.vector_clocks i x y z e p t) in
      record {
        threads = w.threads;
        terminated = w.terminated;
        fence = tick-Released g.vector_clocks i x y z fence e t f;
      }

  -- Acquiring a clock without current times does not panic, and then no clock has a current time of
  -- another thread; the running thread has all that the clock has.
  pub acquire_clock_lem :
      (g : GlobalState Span) (active i : ℕ) (x : ThreadClockSet Span) (c : VClock Span)
      → IsValid g
      → Runs g active i x
      → Released g.vector_clocks c
      → Returns (acquire_clock c active g) λ g'.
        IsValid g'
        × ((y : ThreadClockSet Span)
            → Runs g' active i y
            → (k : ℕ) → tm y.clock k ≡ max (tm x.clock k) (tm c k))
  unfolding acquire_clock
  acquire_clock_lem g active i x c v r h =
      rw (r.index, r.clocks)
        (
          with_clocks-IsValid g i x y v r.clocks (omega (arith, at-join x.clock c i)) (record {
            others = λ k ne. elim (Bool-cases (i == k)) [
              | inl m ↦ absurd (ne (sym ((==_iff i k).0 m)))
              | inr n ↦ ground (
                arith,
                at-join x.clock c k,
                p.others k ne,
                h k,
                n,
                epoch-set_elem g.vector_clocks i k x y r.clocks,
              )
            ];
            acquiring =
                Released-grows g.vector_clocks i x y x.fence_acquire r.clocks
                  (omega (arith, at-join x.clock c i)) p.acquiring;
            releasing =
                Released-grows g.vector_clocks i x y x.fence_release r.clocks
                  (omega (arith, at-join x.clock c i)) p.releasing;
          }),
          λ z q k.
              subst (λ w. tm w.clock k ≡ max (tm x.clock k) (tm c k))
                (some-injective y z (sym (get-set_same g.vector_clocks i y x r.clocks) ∙ q.clocks))
                (at-join x.clock c k),
        )
    where
      y : ThreadClockSet Span
      y = record x { clock = join x.clock c }

      p : Private g.vector_clocks i x
      p = v.threads i x r.clocks

  -- Releasing does not panic while the time fits in 31 bits. It gives the thread's clock, which then
  -- has no current time, and no clock has a current time of another thread.
  pub release_clock_lem :
      (g : GlobalState Span) (active i : ℕ) (x : ThreadClockSet Span) (span : Span)
      → IsValid g
      → Runs g active i x
      → tm x.clock i + 1 < 2 ^ 31
      → Returns
          (release_clock active span g)
          λ (c, g'). (c ≡ x.clock) × Released g'.vector_clocks c × IsValid {Span = Span} g'
  unfolding release_clock
  release_clock_lem g active i x span v r b =
      rw (r.index, r.clocks) (go (increment_clock x i span) (increment_clock-Ticked x i span b))
    where
      go :
          (o : Outcome (ThreadClockSet Span))
          → Returns o (Ticked x i)
          → Returns
              (o >>= λ z. ret (x.clock, with_clocks g i z))
              λ (c, g'). (c ≡ x.clock) × Released g'.vector_clocks c × IsValid {Span = Span} g'
      go panic t = t
      go (ret z) t =
          let p = Private-AllWithin g.vector_clocks i x r.clocks (v.threads i x r.clocks) in
          (
            refl,
            tick-Released g.vector_clocks i x x z x.clock r.clocks t p.clock,
            tick-IsValid g i x x z g.last_sc_fence v r.clocks (omega arith) p
                (Released-Within g.vector_clocks i x x g.last_sc_fence r.clocks (omega arith)
                  v.fence)
                t,
          )
