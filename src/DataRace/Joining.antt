-- ===== src/DataRace/Joining.antt =====
-- data_race.rs: termination and joining of threads.
use miri.Base.{
  ℕ, ◌+◌, ◌≤◌, ◌<◌, ◌≡◌, ◌≢◌, refl, sym, ◌∙◌, subst, Bool, true, false, ◌&&◌, ◌==◌, leb, leb→le,
  if◌then◌else◌, Option, none, some, List, [], ◌∷◌, get_elem?, set_elem, get-set_elem, get-set_same,
  if_Returns, weaken_Returns, ret, Returns, arith, Bool-cases, inl, inr, max, ==_iff, zero, suc,
}
use mathlib.Core.Option.{some-injective}
use miri.VectorClock.Timestamp.{Spans}
use miri.VectorClock.{VClock, join}
use miri.VectorClock.Update.{at-join}
use miri.DataRace.Cell.{ThreadClockSet}
use miri.DataRace.History.{tm}
use miri.DataRace.Threads.{
  ThreadExtraState, GlobalState, with_clocks, acquire_clock, thread_joined, all_from, quiescent,
  maybe_disable,
}
use miri.DataRace.Epochs.{epoch, IsValid, Runs, epoch-set_elem, epoch-get}
use miri.DataRace.Synchronize.{Released-Within, Private-AllWithin}
use miri.DataRace.Fences.{acquired-IsValid, Within-join}

and_split : (p q : Bool) → (p && q) ≡ true → (p ≡ true) × (q ≡ true)
and_split true q h = (refl, h)
and_split false q h = cc

pub all_from-get {ℓ} :
    {A : Type ℓ} (n k m : ℕ) (test : ℕ → A → Bool) (l : List A) (a : A)
    → n + k ≡ m
    → all_from n test l ≡ true
    → get_elem? l k ≡ some a
    → test m a ≡ true
all_from-get n k m test [] a p h e = cc
all_from-get n zero m test (b ∷ l) a p h e =
    let first = (and_split (test n b) (all_from (n + 1) test l) h).0 in
    let same : n ≡ m = omega (arith, p) in
    subst (λ c. test m c ≡ true) (some-injective b a e) (subst (λ q. test q b ≡ true) same first)
all_from-get n (suc k) m test (b ∷ l) a p h e =
    all_from-get (n + 1) k m test l a (omega (arith, p))
      (and_split (test n b) (all_from (n + 1) test l) h).1 e

module _ {Span : Type 0} ⦃s : Spans Span⦄ where
  -- the joined thread's vector index, if it still has one, is not that of the thread `i`
  abbrev pub IsOther : GlobalState Span → ℕ → Option ℕ → Type 0
  IsOther g i none = Unit
  IsOther g i (some j) =
      (i ≢ j) × ((z : ThreadClockSet Span) × (get_elem? g.vector_clocks j ≡ some z))

  -- the thread's clock is the join of the old one and `c`
  abbrev pub Joined : GlobalState Span → ℕ → ThreadClockSet Span → VClock Span → Type 0
  Joined g i x c =
      (y : ThreadClockSet Span)
      → get_elem? g.vector_clocks i ≡ some y
      → (k : ℕ) → tm y.clock k ≡ max (tm x.clock k) (tm c k)

  -- the clocks are those of a join, no current time is another thread's, no current time has changed,
  -- and as many threads count as before
  abbrev pub JoinSpec :
      GlobalState Span → ℕ → ThreadClockSet Span → VClock Span → GlobalState Span → Type 0
  JoinSpec g i x c g' =
      IsValid g'
      × (g'.multi_threaded ≡ g.multi_threaded)
      × ((k : ℕ) → epoch g'.vector_clocks k ≡ epoch g.vector_clocks k)
      × Joined g' i x c

  -- no other thread has the current time of the running thread
  not_quiescent :
      (g : GlobalState Span) (i j : ℕ) (x z : ThreadClockSet Span)
      → IsValid g
      → get_elem? g.vector_clocks i ≡ some x
      → get_elem? g.vector_clocks j ≡ some z
      → i ≢ j
      → 0 < tm x.clock i
      → quiescent g z ≡ false
  not_quiescent g i j x z v e f ne b = elim (Bool-cases (quiescent g z)) [
    | inr n ↦ n
    | inl q ↦
        let p = v.threads j z f in
        let le : tm x.clock i ≤ tm z.clock i = leb→le _ _ (
          all_from-get 0 i i (λ idx y. leb (tm y.clock idx) (tm z.clock idx)) g.vector_clocks x
            (omega arith) q e) in
        absurd (omega (arith, epoch-get g.vector_clocks i x e, p.others i ne, le, b))
  ]

  maybe_disable-keeps :
      (g : GlobalState Span) (i : ℕ) (x : ThreadClockSet Span) (o : Option ℕ) (live_threads : ℕ)
      → IsValid g
      → get_elem? g.vector_clocks i ≡ some x
      → 0 < tm x.clock i
      → IsOther g i o
      → Returns (maybe_disable o live_threads g) λ g'. g' ≡ g
  unfolding maybe_disable
  maybe_disable-keeps g i x none live_threads v e b o = refl
  maybe_disable-keeps g i x (some j) live_threads v e b o =
      let z = o.1.0 in
      if_Returns (λ g'. g' ≡ g) (live_threads == 1) _ (ret g)
        (rw (o.1.1, not_quiescent g i j x z v e (o.1.1) (o.0) b) refl) refl

  acquired-IsOther :
      (g : GlobalState Span) (i : ℕ) (x y : ThreadClockSet Span) (o : Option ℕ)
      → get_elem? g.vector_clocks i ≡ some x
      → IsOther g i o
      → IsOther (with_clocks g i y) i o
  acquired-IsOther g i x y none e o = tt
  acquired-IsOther g i x y (some j) e o = (
    o.0,
    (
      o.1.0,
      elim (Bool-cases (i == j)) [
        | inl m ↦ absurd (o.0 ((==_iff i j).0 m))
        | inr n ↦
            get-set_elem g.vector_clocks i j y x e
            ∙ subst (λ t. (if t then some y else get_elem? g.vector_clocks j) ≡ some (o.1.0))
                (sym n) (o.1.1)
      ],
    ),
  )

  acquired-epoch :
      (l : List (ThreadClockSet Span)) (i k : ℕ) (x y : ThreadClockSet Span)
      → get_elem? l i ≡ some x
      → tm y.clock i ≡ tm x.clock i
      → epoch (set_elem l i y) k ≡ epoch l k
  acquired-epoch l i k x y e b = elim (Bool-cases (i == k)) [
    | inl m ↦
        subst (λ n. epoch (set_elem l i y) n ≡ epoch l n) ((==_iff i k).0 m)
          (ground (arith, epoch-set_elem l i i x y e, epoch-get l i x e, b))
    | inr n ↦ ground (arith, epoch-set_elem l i k x y e, n)
  ]

  -- In a valid state, where no clock has a current time of another thread, nor a clock left by a
  -- terminated thread one: joining a terminated thread with another vector index than the running
  -- thread, or none, does not panic, where the running thread's own time is above 0. The running thread
  -- gets the times of the clock that the joined thread had when it terminated, the state is valid
  -- again, and whether execution counts as multi-threaded is as before,
  -- however few threads are left.
  pub thread_joined_lem :
      (g : GlobalState Span) (active i joinee live_threads : ℕ) (x : ThreadClockSet Span)
      (info : ThreadExtraState Span) (c : VClock Span)
      → IsValid g
      → Runs g active i x
      → 0 < tm x.clock i
      → get_elem? g.thread_info joinee ≡ some info
      → info.termination_vector_clock ≡ some c
      → IsOther g i info.vector_index
      → Returns (thread_joined joinee live_threads active g) (JoinSpec g i x c)
  unfolding thread_joined acquire_clock
  thread_joined_lem g active i joinee live_threads x info c v r b e t o =
      let y = record x { clock = join x.clock c } in
      let g1 = with_clocks g i y in
      let p = v.threads i x r.clocks in
      let w = Private-AllWithin g.vector_clocks i x r.clocks p in
      let h = v.terminated joinee info c e t in
      let grown = at-join x.clock c i in
      let valid =
        acquired-IsValid g i x y v r.clocks (omega (arith, grown))
          (Within-join g.vector_clocks i x x.clock c w.clock
            (Released-Within g.vector_clocks i x x c r.clocks (omega arith) h))
          p.acquiring p.releasing in
      rw (e, t, r.index, r.clocks)
        (weaken_Returns (λ g'. g' ≡ g1) (JoinSpec g i x c)
          (maybe_disable info.vector_index live_threads g1)
          (maybe_disable-keeps g1 i y info.vector_index live_threads valid
            (get-set_same g.vector_clocks i y x r.clocks) (omega (arith, grown, b))
            (acquired-IsOther g i x y info.vector_index r.clocks o))
          (λ g' same. subst (JoinSpec g i x c) (sym same) (
            valid,
            refl,
            λ k.
                acquired-epoch g.vector_clocks i k x y r.clocks
                  (omega (arith, grown, h i, epoch-get g.vector_clocks i x r.clocks)),
            λ z q k.
                subst (λ u. tm u.clock k ≡ max (tm x.clock k) (tm c k))
                  (some-injective y z (sym (get-set_same g.vector_clocks i y x r.clocks) ∙ q))
                  (at-join x.clock c k),
          )))
