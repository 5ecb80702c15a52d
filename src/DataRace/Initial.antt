-- ===== src/DataRace/Initial.antt =====
-- data_race.rs: the clocks at the start of the program, and when a thread terminates.
use miri.Base.{
  ℕ, ◌+◌, ◌^◌, ◌<◌, ◌≡◌, sym, ◌∙◌, ap, subst, Bool, ◌==◌, if◌then◌else◌, none, some, List, [], ◌∷◌,
  get_elem?, set_elem, get-set_elem, get-set_same, Outcome, panic, ret, ◌>>=◌, Returns, arith,
  Bool-cases, inl, inr, zero, suc,
}
use mathlib.Core.Option.{some-injective}
use miri.VectorClock.Timestamp.{Spans}
use miri.VectorClock.{VClock, at}
use miri.DataRace.Cell.{ThreadClockSet}
use miri.DataRace.History.{tm}
use miri.DataRace.Threads.{
  ThreadExtraState, GlobalState, default_clocks, global_new, with_clocks, increment_clock,
  release_clock, thread_terminated, insert, retire,
}
use miri.DataRace.Epochs.{Released, Private, IsValid}
use miri.DataRace.Synchronize.{
  Ticked, increment_clock-Ticked, AllWithin, Private-AllWithin, Released-Within, tick-IsValid,
  tick-Released,
}

module _ {Span : Type 0} ⦃s : Spans Span⦄ where
  pub nil-Released : (l : List (ThreadClockSet Span)) → Released l []
  unfolding at
  nil-Released l i = omega arith

  default-Private : (l : List (ThreadClockSet Span)) (j : ℕ) → Private l j default_clocks
  unfolding at
  default-Private l j = record {
    others = λ i ne. omega arith;
    acquiring = nil-Released l;
    releasing = nil-Released l;
  }

  -- At the start no clock has a current time of another thread.
  pub global_new-IsValid :
      (track_outdated_loads weak_memory : Bool)
      → IsValid {Span = Span} (global_new track_outdated_loads weak_memory)
  unfolding global_new
  global_new-IsValid track_outdated_loads weak_memory = record {
    threads = λ j x e. only_default j x e;
    terminated = λ t info c e f. no_clock t info c e f;
    fence = nil-Released (default_clocks ∷ []);
  }
    where
      only_default :
          (j : ℕ) (x : ThreadClockSet Span)
          → get_elem? (default_clocks ∷ []) j ≡ some x
          → Private (default_clocks ∷ []) j x
      only_default zero x e =
          subst (Private (default_clocks ∷ []) 0) (some-injective default_clocks x e)
            (default-Private (default_clocks ∷ []) 0)
      only_default (suc j) x e = cc

      main : ThreadExtraState Span
      main = record { vector_index = some 0; termination_vector_clock = none }

      no_clock :
          (t : ℕ) (info : ThreadExtraState Span) (c : VClock Span)
          → get_elem? (record { vector_index = some 0; termination_vector_clock = none } ∷ []) t
            ≡ some info
          → info.termination_vector_clock ≡ some c
          → Released (default_clocks ∷ []) c
      no_clock zero info c e f = cc
      no_clock (suc t) info c e f = cc

  -- the state after a thread has left a clock
  abbrev pub TerminatedWith : GlobalState Span → ℕ → ThreadClockSet Span → GlobalState Span → Type 0
  TerminatedWith g active x g' =
      IsValid g'
      × ((info : ThreadExtraState Span)
          → get_elem? g'.thread_info active ≡ some info
          → info.termination_vector_clock ≡ some x.clock)

  retired-IsValid :
      (g : GlobalState Span) (active : ℕ) (info : ThreadExtraState Span) (c : VClock Span)
      (candidates : List ℕ)
      → IsValid g
      → get_elem? g.thread_info active ≡ some info
      → Released g.vector_clocks c
      → IsValid (record g {
        thread_info =
            set_elem g.thread_info active (record info { termination_vector_clock = some c });
        reuse_candidates = candidates;
      })
  retired-IsValid g active info c candidates v e r = record {
    threads = v.threads;
    terminated = λ t info1 c1 f h.
        known t info1 c1 (sym (get-set_elem g.thread_info active t ended info e) ∙ f) h;
    fence = v.fence;
  }
    where
      ended : ThreadExtraState Span
      ended = record info { termination_vector_clock = some c }

      known :
          (t : ℕ) (info1 : ThreadExtraState Span) (c1 : VClock Span)
          → (if active == t
              then some (record info { termination_vector_clock = some c })
              else get_elem? g.thread_info t)
            ≡ some info1
          → info1.termination_vector_clock ≡ some c1
          → Released g.vector_clocks c1
      known t info1 c1 f h = elim (Bool-cases (active == t)) [
        | inr n ↦
            v.terminated t info1 c1
              (subst (λ q. (if q then some ended else get_elem? g.thread_info t) ≡ some info1) n f)
              h
        | inl m ↦
            let same : ended ≡ info1 = some-injective ended info1 (
              subst (λ q. (if q then some ended else get_elem? g.thread_info t) ≡ some info1) m
                f) in
            subst (Released g.vector_clocks)
              (some-injective c c1 (ap (λ o. ThreadExtraState.termination_vector_clock o) same ∙ h))
              r
      ]

  -- In a valid state, where no clock has a current time of another thread, the termination of a thread
  -- whose next time fits in 31 bits does not panic. The clock it leaves is the one it had, the state is
  -- valid again, and so no clock has a current time of another thread, nor the clock it leaves any.
  pub thread_terminated_lem :
      (g : GlobalState Span) (active i : ℕ) (x : ThreadClockSet Span) (info : ThreadExtraState Span)
      (span : Span)
      → IsValid g
      → get_elem? g.thread_info active ≡ some info
      → info.vector_index ≡ some i
      → get_elem? g.vector_clocks i ≡ some x
      → tm x.clock i + 1 < 2 ^ 31
      → Returns (thread_terminated active span g) (TerminatedWith g active x)
  unfolding thread_terminated release_clock retire
  thread_terminated_lem g active i x info span v e f h b =
      rw (e, f, h) (go (increment_clock x i span) (increment_clock-Ticked x i span b))
    where
      p : AllWithin g.vector_clocks i x
      p = Private-AllWithin g.vector_clocks i x h (v.threads i x h)

      go :
          (o : Outcome (ThreadClockSet Span))
          → Returns o (Ticked x i)
          → Returns
              ((o >>= λ z. ret (x.clock, with_clocks g i z)) >>= retire i active)
              (TerminatedWith g active x)
      go panic t = t
      go (ret z) t = rw (e) (
        retired-IsValid (with_clocks g i z) active info x.clock (insert i g.reuse_candidates)
            (tick-IsValid g i x x z g.last_sc_fence v h (omega arith) p
              (Released-Within g.vector_clocks i x x g.last_sc_fence h (omega arith) v.fence) t)
            e (tick-Released g.vector_clocks i x x z x.clock h t p.clock),
        λ info1 q.
            ap (λ o. ThreadExtraState.termination_vector_clock o)
              (sym (some-injective _ info1 (sym (get-set_same g.thread_info active _ info e) ∙ q))),
      )
