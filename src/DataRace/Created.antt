-- ===== src/DataRace/Created.antt =====
-- data_race.rs: the clocks of a thread that starts.
use miri.Base.{
  ℕ, ◌+◌, ◌^◌, ◌≤◌, ◌<◌, ◌≡◌, ◌≢◌, sym, ◌∙◌, subst, false, ◌==◌, if◌then◌else◌, some, List,
  get_elem?, get-set_elem, get-set_same, map_Returns, weaken_Returns, Outcome, panic, ret, ◌>>=◌,
  Returns, arith, Bool-cases, inl, inr, ==_iff,
}
use mathlib.Core.Option.{some-injective}
use miri.VectorClock.Timestamp.{Spans}
use miri.VectorClock.{VClock, join}
use miri.VectorClock.Update.{at-join}
use miri.DataRace.Cell.{ThreadClockSet}
use miri.DataRace.History.{tm, Below}
use miri.DataRace.Threads.{GlobalState, with_clocks, increment_clock}
use miri.DataRace.Creation.{start_thread, join_with}
use miri.DataRace.Epochs.{epoch, Released, IsValid, epoch-set_elem, epoch-get}
use miri.DataRace.Synchronize.{
  Ticked, increment_clock-Ticked, AllWithin, Released-Within, Private-AllWithin, tick-IsValid,
  tick-Released,
}
use miri.DataRace.Fences.{Within-join, Within-grows}

module _ {Span : Type 0} ⦃s : Spans Span⦄ where
  -- the new thread's clocks: it has all of the clock `c`, and its own index has a new time
  abbrev Begun : GlobalState Span → ℕ → VClock Span → GlobalState Span → Type 0
  Begun g j c g' =
      IsValid g'
      × (epoch g.vector_clocks j < epoch g'.vector_clocks j)
      × ((k : ℕ) → j ≢ k → epoch g'.vector_clocks k ≡ epoch g.vector_clocks k)
      × ((z : ThreadClockSet Span) → get_elem? g'.vector_clocks j ≡ some z → Below c z.clock)

  begin-Ticked :
      (g : GlobalState Span) (j : ℕ) (x y z : ThreadClockSet Span)
      → IsValid g
      → get_elem? g.vector_clocks j ≡ some y
      → Released g.vector_clocks x.clock
      → Ticked (join_with y x) j z
      → Begun g j x.clock (with_clocks g j z)
  begin-Ticked g j x y z v e r t = (
    tick-IsValid g j y y1 z g.last_sc_fence v e grown
        (record {
          clock = Within-grows l j y y1 y1.clock grown (
              Within-join l j y y.clock x.clock w.clock
                (Released-Within l j y y x.clock e (omega arith) r));
          acquiring = Within-grows l j y y1 y.fence_acquire grown w.acquiring;
          releasing = Within-grows l j y y1 y.fence_release grown w.releasing;
        })
        (Released-Within l j y y1 g.last_sc_fence e grown v.fence) t,
    ground (arith, epoch-set_elem l j j y z e, epoch-get l j y e, grown, t.0 j),
    λ k ne. elim (Bool-cases (j == k)) [
      | inl m ↦ absurd (ne ((==_iff j k).0 m))
      | inr n ↦ ground (arith, epoch-set_elem l j k y z e, n)
    ],
    λ u q k.
        subst (λ c. tm x.clock k ≤ tm c.clock k)
          (some-injective z u (sym (get-set_same l j z y e) ∙ q))
          (ground (arith, t.0 k, at-join y.clock x.clock k)),
  )
    where
      l : List (ThreadClockSet Span)
      l = g.vector_clocks

      y1 : ThreadClockSet Span
      y1 = record y { clock = join y.clock x.clock }

      w : AllWithin g.vector_clocks j y
      w = Private-AllWithin g.vector_clocks j y e (v.threads j y e)

      grown : tm y.clock j ≤ tm (join y.clock x.clock) j
      grown = omega (arith, at-join y.clock x.clock j)

  begin_lem :
      (g : GlobalState Span) (j : ℕ) (x y : ThreadClockSet Span) (span : Span)
      → IsValid g
      → get_elem? g.vector_clocks j ≡ some y
      → Released g.vector_clocks x.clock
      → tm y.clock j + 1 < 2 ^ 31
      → Returns
          (increment_clock (join_with y x) j span >>= λ z. ret (with_clocks g j z))
          (Begun g j x.clock)
  begin_lem g j x y span v e r b =
      map_Returns (Ticked (join_with y x) j) (Begun g j x.clock) (with_clocks g j)
        (increment_clock (join_with y x) j span)
        (increment_clock-Ticked (join_with y x) j span
          (omega (arith, at-join y.clock x.clock j, r j, epoch-get g.vector_clocks j y e, b)))
        (λ z t. begin-Ticked g j x y z v e r t)

  -- both threads have new current times, and the new thread has the other's clock
  abbrev pub Started : GlobalState Span → ℕ → ℕ → ThreadClockSet Span → GlobalState Span → Type 0
  Started g i j x g' =
      IsValid g'
      × (epoch g.vector_clocks i < epoch g'.vector_clocks i)
      × (epoch g.vector_clocks j < epoch g'.vector_clocks j)
      × ((y : ThreadClockSet Span) → get_elem? g'.vector_clocks j ≡ some y → Below x.clock y.clock)

  -- In a valid state, where no clock has a current time of another thread: when a thread with the
  -- vector index `i` starts one with another index `j`, and both their times after it fit in 31 bits,
  -- nothing panics. What the thread did before happens before all that the new
  -- thread does, both have new current times, and the state is valid again.
  pub start_thread_lem :
      (g : GlobalState Span) (i j : ℕ) (x y : ThreadClockSet Span) (span : Span)
      → IsValid g
      → i ≢ j
      → get_elem? g.vector_clocks i ≡ some x
      → get_elem? g.vector_clocks j ≡ some y
      → tm x.clock i + 1 < 2 ^ 31
      → tm y.clock j + 1 < 2 ^ 31
      → Returns (start_thread i j span g) (Started g i j x)
  unfolding start_thread
  start_thread_lem g i j x y span v ne e f b c =
      rw (other, e, f) (go (increment_clock x i span) (increment_clock-Ticked x i span b))
    where
      other : (i == j) ≡ false
      other = elim (Bool-cases (i == j)) [ inl m ↦ absurd (ne ((==_iff i j).0 m)) | inr n ↦ n ]

      p : AllWithin g.vector_clocks i x
      p = Private-AllWithin g.vector_clocks i x e (v.threads i x e)

      go :
          (o : Outcome (ThreadClockSet Span))
          → Returns o (Ticked x i)
          → Returns
              (o >>= λ x'. increment_clock (join_with y x) j span >>= λ y'.
                ret (with_clocks (with_clocks g i x') j y'))
              (Started g i j x)
      go panic t = t
      go (ret x') t =
          let g1 = with_clocks g i x' in
          let get_j : get_elem? g1.vector_clocks j ≡ some y =
            get-set_elem g.vector_clocks i j x' x e
            ∙ subst (λ q. (if q then some x' else get_elem? g.vector_clocks j) ≡ some y) (sym other)
                f in
          weaken_Returns (Begun g1 j x.clock) (Started g i j x) _
            (begin_lem g1 j x y span
              (tick-IsValid g i x x x' g.last_sc_fence v e (omega arith) p
                (Released-Within g.vector_clocks i x x g.last_sc_fence e (omega arith) v.fence) t)
              get_j (tick-Released g.vector_clocks i x x x' x.clock e t p.clock) c)
            (λ g' r. (
              r.0,
              ground (
                arith,
                r.2 i (λ q. ne (sym q)),
                epoch-set_elem g.vector_clocks i i x x' e,
                t.0 i,
                epoch-get g.vector_clocks i x e,
              ),
              ground (
                arith,
                r.1,
                epoch-get g1.vector_clocks j y get_j,
                epoch-get g.vector_clocks j y f,
              ),
              r.3,
            ))
