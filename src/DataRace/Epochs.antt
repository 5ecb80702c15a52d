-- ===== src/DataRace/Epochs.antt =====
-- data_race.rs: which times of a thread the other clocks of the state have. A thread's current time,
-- the epoch since its last increment, is its own.
use miri.Base.{
  ℕ, ◌-◌, ◌≤◌, ◌≡◌, ◌≢◌, refl, sym, ◌∙◌, subst, ◌==◌, if◌then◌else◌, Option, none, some, List,
  get_elem?, set_elem, get-set_elem, ret, arith, Bool-cases, inl, inr, ==_iff,
}
use mathlib.Core.Option.{some-injective}
use miri.VectorClock.Timestamp.{Spans}
use miri.VectorClock.{VClock}
use miri.DataRace.Cell.{ThreadClockSet}
use miri.DataRace.History.{tm}
use miri.DataRace.Threads.{ThreadExtraState, GlobalState, thread_index, with_clocks}

module _ {Span : Type 0} ⦃s : Spans Span⦄ where
  -- the current time of the thread with a vector index
  abbrev pub own_time : Option (ThreadClockSet Span) → ℕ → ℕ
  own_time none i = 0
  own_time (some x) i = tm x.clock i

  abbrev pub epoch : List (ThreadClockSet Span) → ℕ → ℕ
  epoch l i = own_time (get_elem? l i) i

  -- the clock has no current time of any thread, nor a time of an index not in use
  abbrev pub Released : List (ThreadClockSet Span) → VClock Span → Type 0
  Released l c = (i : ℕ) → tm c i ≤ epoch l i - 1

  -- the clocks at the index have current times only of that index
  pub record Private (l : List (ThreadClockSet Span)) (j : ℕ) (x : ThreadClockSet Span)
      : Type 0 where
    pub others : (i : ℕ) → i ≢ j → tm x.clock i ≤ epoch l i - 1
    pub acquiring : Released l x.fence_acquire
    pub releasing : Released l x.fence_release

  pub record IsValid (g : GlobalState Span) : Type 0 where
    pub threads :
        (j : ℕ) (x : ThreadClockSet Span)
        → get_elem? g.vector_clocks j ≡ some x
        → Private g.vector_clocks j x
    pub terminated :
        (t : ℕ) (info : ThreadExtraState Span) (c : VClock Span)
        → get_elem? g.thread_info t ≡ some info
        → info.termination_vector_clock ≡ some c
        → Released g.vector_clocks c
    pub fence : Released g.vector_clocks g.last_sc_fence

  -- the running thread has the vector index `i` and the clocks `x`
  pub record Runs (g : GlobalState Span) (active i : ℕ) (x : ThreadClockSet Span) : Type 0 where
    pub index : thread_index g active ≡ ret i
    pub clocks : get_elem? g.vector_clocks i ≡ some x

  pub epoch-set_elem :
      (l : List (ThreadClockSet Span)) (i k : ℕ) (x y : ThreadClockSet Span)
      → get_elem? l i ≡ some x
      → epoch (set_elem l i y) k ≡ (if i == k then tm y.clock k else epoch l k)
  epoch-set_elem l i k x y e = elim (Bool-cases (i == k)) [
    | inl p ↦ rw (get-set_elem l i k y x e, p) refl
    | inr n ↦ rw (get-set_elem l i k y x e, n) refl
  ]

  pub epoch-get :
      (l : List (ThreadClockSet Span)) (i : ℕ) (x : ThreadClockSet Span)
      → get_elem? l i ≡ some x
      → epoch l i ≡ tm x.clock i
  epoch-get l i x e = rw (e) refl

  -- one thread's clock grows at its own index
  epoch-grows :
      (l : List (ThreadClockSet Span)) (i k : ℕ) (x y : ThreadClockSet Span)
      → get_elem? l i ≡ some x
      → tm x.clock i ≤ tm y.clock i
      → epoch l k ≤ epoch (set_elem l i y) k
  epoch-grows l i k x y e b = elim (Bool-cases (i == k)) [
    | inl p ↦
        subst (λ n. epoch l n ≤ epoch (set_elem l i y) n) ((==_iff i k).0 p)
          (ground (arith, epoch-set_elem l i i x y e, epoch-get l i x e, b))
    | inr n ↦ ground (arith, epoch-set_elem l i k x y e, n)
  ]

  pub Released-grows :
      (l : List (ThreadClockSet Span)) (i : ℕ) (x y : ThreadClockSet Span) (c : VClock Span)
      → get_elem? l i ≡ some x
      → tm x.clock i ≤ tm y.clock i
      → Released l c
      → Released (set_elem l i y) c
  Released-grows l i x y c e b r k = omega (arith, r k, epoch-grows l i k x y e b)

  Private-grows :
      (l : List (ThreadClockSet Span)) (i j : ℕ) (x y z : ThreadClockSet Span)
      → get_elem? l i ≡ some x
      → tm x.clock i ≤ tm y.clock i
      → Private l j z
      → Private (set_elem l i y) j z
  Private-grows l i j x y z e b p = record {
    others = λ k ne. omega (arith, p.others k ne, epoch-grows l i k x y e b);
    acquiring = Released-grows l i x y z.fence_acquire e b p.acquiring;
    releasing = Released-grows l i x y z.fence_release e b p.releasing;
  }

  -- A thread's clocks are exchanged for ones that have no new current times of others.
  pub with_clocks-IsValid :
      (g : GlobalState Span) (i : ℕ) (x y : ThreadClockSet Span)
      → IsValid g
      → get_elem? g.vector_clocks i ≡ some x
      → tm x.clock i ≤ tm y.clock i
      → Private (set_elem g.vector_clocks i y) i y
      → IsValid (with_clocks g i y)
  with_clocks-IsValid g i x y v e b p = record {
    threads = λ j z q. elim (Bool-cases (i == j)) [
      | inl m ↦
          subst (λ n. Private (set_elem g.vector_clocks i y) n z) ((==_iff i j).0 m)
            (subst (λ w. Private (set_elem g.vector_clocks i y) i w)
              (some-injective y z (
                subst (λ t. (if t then some y else get_elem? g.vector_clocks j) ≡ some z) m
                  (sym (get-set_elem g.vector_clocks i j y x e) ∙ q)))
              p)
      | inr n ↦ Private-grows g.vector_clocks i j x y z e b (
          v.threads j z (
            subst (λ t. (if t then some y else get_elem? g.vector_clocks j) ≡ some z) n
              (sym (get-set_elem g.vector_clocks i j y x e) ∙ q)))
    ];
    terminated =
        λ t info c p q. Released-grows g.vector_clocks i x y c e b (v.terminated t info c p q);
    fence = Released-grows g.vector_clocks i x y g.last_sc_fence e b v.fence;
  }
