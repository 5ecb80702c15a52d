-- ===== src/DataRace/Fences.antt =====
-- data_race.rs: fences, termination and joining of threads.
use miri.Base.{
  ℕ, ◌+◌, ◌-◌, ◌^◌, ◌≤◌, ◌<◌, ◌≡◌, sym, subst, ◌==◌, if◌then◌else◌, some, List, get_elem?,
  get-set_same, set-set_elem, if_Returns, Outcome, panic, ret, ◌>>=◌, Returns, arith, Bool-cases,
  inl, inr, ==_iff,
}
use miri.VectorClock.Timestamp.{Spans}
use miri.VectorClock.{VClock, join}
use miri.VectorClock.Update.{at-join}
use miri.DataRace.Orderings.{AtomicFenceOrd}
use miri.DataRace.Cell.{ThreadClockSet}
use miri.DataRace.History.{tm}
use miri.DataRace.Threads.{
  GlobalState, clocks_at, with_clocks, increment_clock, fence_clocks, maybe_perform_sync_operation,
  atomic_fence, apply_acquire_fence, sc_fence,
}
use miri.DataRace.Epochs.{
  epoch, Released, IsValid, Runs, epoch-set_elem, Released-grows, with_clocks-IsValid,
}
use miri.DataRace.Synchronize.{
  Ticked, increment_clock-Ticked, Within, AllWithin, Released-Within, Private-AllWithin,
  tick-IsValid,
}

module _ {Span : Type 0} ⦃s : Spans Span⦄ where
  pub Within-join :
      (l : List (ThreadClockSet Span)) (i : ℕ) (x : ThreadClockSet Span) (a b : VClock Span)
      → Within l i x a
      → Within l i x b
      → Within l i x (join a b)
  Within-join l i x a b p q k = ground (arith, at-join a b k, p k, q k)

  pub Within-grows :
      (l : List (ThreadClockSet Span)) (i : ℕ) (x y : ThreadClockSet Span) (c : VClock Span)
      → tm x.clock i ≤ tm y.clock i
      → Within l i x c
      → Within l i y c
  Within-grows l i x y c b p k = elim (Bool-cases (i == k)) [
    | inl m ↦
        subst (λ n. tm c n ≤ (if i == n then tm y.clock n else epoch l n - 1)) ((==_iff i k).0 m)
          (ground (arith, p i, b))
    | inr n ↦ ground (arith, p k, n)
  ]

  -- the thread's clocks `y` and the clock of fences, made from those of the thread `x`
  record Fenced (l : List (ThreadClockSet Span)) (i : ℕ) (x : ThreadClockSet Span)
      (r : VClock Span × ThreadClockSet Span) : Type 0 where
    pub fence : Within l i x (r.0)
    pub clock : let y = r.1 in Within l i x y.clock
    pub acquiring : let y = r.1 in Within l i x y.fence_acquire
    pub releasing : let y = r.1 in Within l i x y.fence_release
    pub own : let y = r.1 in tm x.clock i ≤ tm y.clock i

  fence_clocks-Fenced :
      (l : List (ThreadClockSet Span)) (i : ℕ) (x : ThreadClockSet Span) (atomic : AtomicFenceOrd)
      (last_fence last_write : VClock Span)
      → AllWithin l i x
      → Within l i x last_fence
      → Fenced l i x (fence_clocks atomic last_fence last_write x)
  unfolding fence_clocks apply_acquire_fence sc_fence
  fence_clocks-Fenced l i x AtomicFenceOrd.acquire f w p q = record {
    fence = q;
    clock = Within-join l i x x.clock x.fence_acquire p.clock p.acquiring;
    acquiring = p.acquiring;
    releasing = p.releasing;
    own = omega (arith, at-join x.clock x.fence_acquire i);
  }
  fence_clocks-Fenced l i x AtomicFenceOrd.release f w p q = record {
    fence = q;
    clock = p.clock;
    acquiring = p.acquiring;
    releasing = p.clock;
    own = omega arith;
  }
  fence_clocks-Fenced l i x AtomicFenceOrd.acq_rel f w p q =
      let c = Within-join l i x x.clock x.fence_acquire p.clock p.acquiring in
      record {
        fence = q;
        clock = c;
        acquiring = p.acquiring;
        releasing = c;
        own = omega (arith, at-join x.clock x.fence_acquire i);
      }
  fence_clocks-Fenced l i x AtomicFenceOrd.seq_cst f w p q =
      let a = join x.clock x.fence_acquire in
      let c = Within-join l i x x.clock x.fence_acquire p.clock p.acquiring in
      let sc = Within-join l i x f a q c in
      let both = Within-join l i x a (join f a) c sc in
      record {
        fence = sc;
        clock = both;
        acquiring = p.acquiring;
        releasing = both;
        own = omega (arith, at-join x.clock x.fence_acquire i, at-join a (join f a) i);
      }

  -- a thread's clock grows by times that are not current
  pub acquired-IsValid :
      (g : GlobalState Span) (i : ℕ) (x y : ThreadClockSet Span)
      → IsValid g
      → get_elem? g.vector_clocks i ≡ some x
      → tm x.clock i ≤ tm y.clock i
      → Within g.vector_clocks i x y.clock
      → Released g.vector_clocks y.fence_acquire
      → Released g.vector_clocks y.fence_release
      → IsValid (with_clocks g i y)
  acquired-IsValid g i x y v e b c p q = with_clocks-IsValid g i x y v e b (record {
    others = λ k ne. elim (Bool-cases (i == k)) [
      | inl m ↦ absurd (ne (sym ((==_iff i k).0 m)))
      | inr n ↦ ground (arith, c k, n, epoch-set_elem g.vector_clocks i k x y e)
    ];
    acquiring = Released-grows g.vector_clocks i x y y.fence_acquire e b p;
    releasing = Released-grows g.vector_clocks i x y y.fence_release e b q;
  })

  -- the increment after a fence
  tick_after_fence :
      (g : GlobalState Span) (i : ℕ) (x y : ThreadClockSet Span) (fence : VClock Span)
      → IsValid g
      → get_elem? g.vector_clocks i ≡ some x
      → Fenced g.vector_clocks i x (fence, y)
      → (o : Outcome (ThreadClockSet Span)) → Returns o (Ticked y i)
      → Returns
          (o >>= λ z. ret (with_clocks (with_clocks (record g { last_sc_fence = fence }) i y) i z))
          (IsValid {Span = Span})
  tick_after_fence g i x y fence v e f panic t = t
  tick_after_fence g i x y fence v e f (ret z) t =
      subst (λ l. IsValid (record g { vector_clocks = l; last_sc_fence = fence }))
        (sym (set-set_elem g.vector_clocks i y z))
        (tick-IsValid g i x y z fence v e f.own
          (record {
            clock = Within-grows g.vector_clocks i x y y.clock f.own f.clock;
            acquiring = Within-grows g.vector_clocks i x y y.fence_acquire f.own f.acquiring;
            releasing = Within-grows g.vector_clocks i x y y.fence_release f.own f.releasing;
          })
          (Within-grows g.vector_clocks i x y fence f.own f.fence) t)

  fence_result-Fenced :
      (g : GlobalState Span) (i : ℕ) (x : ThreadClockSet Span) (atomic : AtomicFenceOrd)
      → IsValid g
      → get_elem? g.vector_clocks i ≡ some x
      → Fenced g.vector_clocks i x
          (fence_clocks atomic g.last_sc_fence g.last_sc_write_per_thread x)
  fence_result-Fenced g i x atomic v e =
      fence_clocks-Fenced g.vector_clocks i x atomic g.last_sc_fence g.last_sc_write_per_thread
        (Private-AllWithin g.vector_clocks i x e (v.threads i x e))
        (Released-Within g.vector_clocks i x x g.last_sc_fence e (omega arith) v.fence)

  -- the rest of a fence that increments the clock
  released_fence :
      (g : GlobalState Span) (i : ℕ) (x : ThreadClockSet Span) (atomic : AtomicFenceOrd)
      (span : Span)
      → IsValid g
      → get_elem? g.vector_clocks i ≡ some x
      → tm x.clock i + 1 < 2 ^ 31
      → let r = fence_clocks atomic g.last_sc_fence g.last_sc_write_per_thread x in
        let g1 = with_clocks (record g { last_sc_fence = r.0 }) i (r.1) in
        Returns
          (clocks_at g1 i >>= λ x1. increment_clock x1 i span >>= λ x2. ret (with_clocks g1 i x2))
          (IsValid {Span = Span})
  released_fence g i x atomic span v e b =
      let r = fence_clocks atomic g.last_sc_fence g.last_sc_write_per_thread x in
      let f = fence_result-Fenced g i x atomic v e in
      rw (get-set_same g.vector_clocks i (r.1) x e) (
        tick_after_fence g i x (r.1) (r.0) v e f (increment_clock (r.1) i span)
          (increment_clock-Ticked (r.1) i span (same_time f b)))
    where
      same_time :
          {r : VClock Span × ThreadClockSet Span}
          → Fenced g.vector_clocks i x r
          → tm x.clock i + 1 < 2 ^ 31
          → let y = r.1 in tm y.clock i + 1 < 2 ^ 31
      same_time f b = ground (arith, f.clock i, b)

  acquire_fence :
      (g : GlobalState Span) (i : ℕ) (x : ThreadClockSet Span)
      → IsValid g
      → get_elem? g.vector_clocks i ≡ some x
      → IsValid (with_clocks g i (apply_acquire_fence x))
  unfolding apply_acquire_fence
  acquire_fence g i x v e =
      let p = v.threads i x e in
      let w = Private-AllWithin g.vector_clocks i x e p in
      acquired-IsValid g i x (record x { clock = join x.clock x.fence_acquire }) v e
        (omega (arith, at-join x.clock x.fence_acquire i))
        (Within-join g.vector_clocks i x x.clock x.fence_acquire w.clock w.acquiring) p.acquiring
        p.releasing

  -- In a valid state, where no clock has a current time of another thread, a fence of the running
  -- thread whose next time fits in 31 bits does not panic, and the state after it is valid.
  pub atomic_fence_lem :
      (g : GlobalState Span) (active i : ℕ) (x : ThreadClockSet Span) (atomic : AtomicFenceOrd)
      (span : Span)
      → IsValid g
      → Runs g active i x
      → tm x.clock i + 1 < 2 ^ 31
      → Returns (atomic_fence atomic active span g) IsValid
  unfolding atomic_fence maybe_perform_sync_operation
  atomic_fence_lem g active i x AtomicFenceOrd.acquire span v r b =
      if_Returns IsValid g.multi_threaded _ (ret g)
        (rw (r.index, r.clocks) (acquire_fence g i x v r.clocks)) v
  atomic_fence_lem g active i x AtomicFenceOrd.release span v r b =
      if_Returns IsValid g.multi_threaded _ (ret g)
        (rw (r.index, r.clocks) (released_fence g i x AtomicFenceOrd.release span v r.clocks b)) v
  atomic_fence_lem g active i x AtomicFenceOrd.acq_rel span v r b =
      if_Returns IsValid g.multi_threaded _ (ret g)
        (rw (r.index, r.clocks) (released_fence g i x AtomicFenceOrd.acq_rel span v r.clocks b)) v
  atomic_fence_lem g active i x AtomicFenceOrd.seq_cst span v r b =
      if_Returns IsValid g.multi_threaded _ (ret g)
        (rw (r.index, r.clocks) (released_fence g i x AtomicFenceOrd.seq_cst span v r.clocks b)) v
