-- ===== src/DataRace/Threads.antt =====
-- data_race.rs: `GlobalState`, the clocks of all threads. The `RefCell`s are fields. The order in which
-- the hash set of candidates for reuse is walked is an argument. `active` is the running thread,
-- `current_span` its span, and an index or `expect` that fails is a panic.
use miri.Base.{
  ℕ, ◌+◌, Bool, true, false, not, ◌&&◌, ◌||◌, ◌==◌, leb, if◌then◌else◌, Option, none, some, List,
  [], ◌∷◌, get_elem?, set_elem, Outcome, ret, ◌>>=◌, unwrap, zero, suc,
}
use miri.VectorClock.Timestamp.{Spans, time}
use miri.VectorClock.{VClock, at, join, increment_index, set_at_index}
use miri.DataRace.Orderings.{AtomicFenceOrd, acquires_fence, releases_fence, is_seq_cst}
use miri.DataRace.Cell.{ThreadClockSet}

pub record ThreadExtraState (Span : Type 0) : Type 0 where
  pub vector_index : Option ℕ
  pub termination_vector_clock : Option (VClock Span)

pub record GlobalState (Span : Type 0) : Type 0 where
  pub multi_threaded : Bool
  pub ongoing_action_data_race_free : Bool
  pub vector_clocks : List (ThreadClockSet Span)
  pub vector_info : List ℕ
  pub thread_info : List (ThreadExtraState Span)
  pub reuse_candidates : List ℕ
  pub last_sc_fence : VClock Span
  pub last_sc_write_per_thread : VClock Span
  pub track_outdated_loads : Bool
  pub weak_memory : Bool

abbrev pub contains : List ℕ → ℕ → Bool
contains [] x = false
contains (y ∷ l) x = y == x || contains l x

abbrev pub insert : ℕ → List ℕ → List ℕ
insert x l = if contains l x then l else x ∷ l

abbrev pub remove : ℕ → List ℕ → List ℕ
remove x [] = []
remove x (y ∷ l) = if y == x then remove x l else y ∷ remove x l

-- `iter_enumerated().all(...)`, from this index on
abbrev pub all_from {ℓ} : {A : Type ℓ} → ℕ → (ℕ → A → Bool) → List A → Bool
all_from i test [] = true
all_from i test (a ∷ l) = test i a && all_from (i + 1) test l

module _ {Span : Type 0} where
  abbrev pub default_clocks : ThreadClockSet Span
  default_clocks = record {
    clock = [];
    fence_acquire = [];
    fence_release = [];
    write_seqcst = [];
    read_seqcst = [];
  }

  abbrev pub default_extra : ThreadExtraState Span
  default_extra = record { vector_index = none; termination_vector_clock = none }

  -- `GlobalState::new`
  unfoldable pub global_new : Bool → Bool → GlobalState Span
  global_new track_outdated_loads weak_memory = record {
    multi_threaded = false;
    ongoing_action_data_race_free = false;
    vector_clocks = default_clocks ∷ [];
    vector_info = 0 ∷ [];
    thread_info = record { vector_index = some 0; termination_vector_clock = none } ∷ [];
    reuse_candidates = [];
    last_sc_fence = [];
    last_sc_write_per_thread = [];
    track_outdated_loads = track_outdated_loads;
    weak_memory = weak_memory;
  }

  unfoldable pub race_detecting : GlobalState Span → Bool
  race_detecting g = g.multi_threaded && not g.ongoing_action_data_race_free

  abbrev pub thread_index : GlobalState Span → ℕ → Outcome ℕ
  thread_index g thread =
      unwrap (get_elem? g.thread_info thread) >>= λ info. unwrap info.vector_index

  abbrev pub clocks_at : GlobalState Span → ℕ → Outcome (ThreadClockSet Span)
  clocks_at g i = unwrap (get_elem? g.vector_clocks i)

  abbrev pub with_clocks : GlobalState Span → ℕ → ThreadClockSet Span → GlobalState Span
  with_clocks g i x = record g { vector_clocks = set_elem g.vector_clocks i x }

  -- `ensure_contains_elem`, with the number of missing elements
  fill : ℕ → List (ThreadExtraState Span)
  fill zero = []
  fill (suc n) = default_extra ∷ fill n

  unfoldable pub ensure_contains : ℕ → List (ThreadExtraState Span) → List (ThreadExtraState Span)
  unfolding fill
  ensure_contains i [] = fill (i + 1)
  ensure_contains zero (a ∷ l) = a ∷ l
  ensure_contains (suc i) (a ∷ l) = a ∷ ensure_contains i l

module _ {Span : Type 0} ⦃s : Spans Span⦄ where
  abbrev pub apply_release_fence : ThreadClockSet Span → ThreadClockSet Span
  apply_release_fence x = record x { fence_release = x.clock }

  unfoldable pub apply_acquire_fence : ThreadClockSet Span → ThreadClockSet Span
  unfolding join
  apply_acquire_fence x = record x { clock = join x.clock x.fence_acquire }

  unfoldable pub increment_clock : ThreadClockSet Span → ℕ → Span → Outcome (ThreadClockSet Span)
  unfolding increment_index
  increment_clock x index current_span = do
    clock ← increment_index x.clock index current_span
    ret (record x { clock = clock })

  unfoldable pub acquire_clock : VClock Span → ℕ → GlobalState Span → Outcome (GlobalState Span)
  unfolding join
  acquire_clock clock active g = do
    i ← thread_index g active
    x ← clocks_at g i
    ret (with_clocks g i (record x { clock = join x.clock clock }))

  -- the clock that the callback is given, and the state after the increment
  unfoldable pub release_clock :
      ℕ → Span → GlobalState Span → Outcome (VClock Span × GlobalState Span)
  unfolding increment_clock
  release_clock active current_span g = do
    i ← thread_index g active
    x ← clocks_at g i
    x' ← increment_clock x i current_span
    ret (x.clock, with_clocks g i x')

  -- the end of `thread_terminated`
  unfoldable pub retire : ℕ → ℕ → VClock Span × GlobalState Span → Outcome (GlobalState Span)
  retire i active (clock, g) = do
    info ← unwrap (get_elem? g.thread_info active)
    ret (record g {
      thread_info =
          set_elem g.thread_info active (record info { termination_vector_clock = some clock });
      reuse_candidates = insert i g.reuse_candidates;
    })

  unfoldable pub thread_terminated : ℕ → Span → GlobalState Span → Outcome (GlobalState Span)
  unfolding release_clock retire
  thread_terminated active current_span g = do
    i ← thread_index g active
    released ← release_clock active current_span g
    retire i active released

  -- the test for disabling multi-threaded execution
  abbrev pub quiescent : GlobalState Span → ThreadClockSet Span → Bool
  quiescent g current =
      all_from 0 (λ idx x. leb (time (at x.clock idx)) (time (at current.clock idx)))
        g.vector_clocks

  -- the end of `thread_joined`
  unfoldable pub maybe_disable : Option ℕ → ℕ → GlobalState Span → Outcome (GlobalState Span)
  maybe_disable none live_threads g = ret g
  maybe_disable (some current_index) live_threads g =
      if live_threads == 1
      then (clocks_at g current_index >>= λ current.
          ret (if quiescent g current then record g { multi_threaded = false } else g))
      else ret g

  -- `thread_info.vector_index` is that of the joined thread, read before the clock is acquired
  unfoldable pub thread_joined : ℕ → ℕ → ℕ → GlobalState Span → Outcome (GlobalState Span)
  unfolding acquire_clock maybe_disable
  thread_joined joinee live_threads active g = do
    info ← unwrap (get_elem? g.thread_info joinee)
    join_clock ← unwrap info.termination_vector_clock
    g1 ← acquire_clock join_clock active g
    maybe_disable info.vector_index live_threads g1

  -- what the operation changes is the state, and it tells whether the clock is to be incremented
  unfoldable pub maybe_perform_sync_operation :
      (ℕ → GlobalState Span → Outcome (Bool × GlobalState Span))
      → ℕ
      → Span
      → GlobalState Span
      → Outcome (GlobalState Span)
  unfolding increment_clock
  maybe_perform_sync_operation op active current_span g =
      if g.multi_threaded
      then (thread_index g active >>= λ i. op i g >>= λ (increment, g1).
          if increment
          then (clocks_at g1 i >>= λ x.
              increment_clock x i current_span >>= λ x'. ret (with_clocks g1 i x'))
          else ret g1)
      else ret g

  -- the thread's clocks and the clock of fences after a sequentially consistent fence
  unfoldable pub sc_fence :
      VClock Span → VClock Span → ThreadClockSet Span → VClock Span × ThreadClockSet Span
  unfolding join
  sc_fence last_sc_fence last_sc_write x =
      let sc_fence_clock = join last_sc_fence x.clock in
      (
        sc_fence_clock,
        record x {
          clock = join x.clock sc_fence_clock;
          write_seqcst = join x.write_seqcst last_sc_write;
        },
      )

  -- the closure of `atomic_fence`, on the clock of fences and the thread's clocks
  unfoldable pub fence_clocks :
      AtomicFenceOrd
      → VClock Span
      → VClock Span
      → ThreadClockSet Span
      → VClock Span × ThreadClockSet Span
  unfolding apply_acquire_fence sc_fence
  fence_clocks atomic last_sc_fence last_sc_write x =
      let x1 = if acquires_fence atomic then apply_acquire_fence x else x in
      let r =
        if is_seq_cst atomic
        then sc_fence last_sc_fence last_sc_write x1
        else (last_sc_fence, x1) in
      (r.0, if releases_fence atomic then apply_release_fence (r.1) else r.1)

  unfoldable pub atomic_fence :
      AtomicFenceOrd → ℕ → Span → GlobalState Span → Outcome (GlobalState Span)
  unfolding maybe_perform_sync_operation fence_clocks
  atomic_fence atomic active current_span g =
      maybe_perform_sync_operation
        (λ i g'. clocks_at g' i >>= λ x.
          let r = fence_clocks atomic g'.last_sc_fence g'.last_sc_write_per_thread x in
          ret (releases_fence atomic, with_clocks (record g' { last_sc_fence = r.0 }) i (r.1)))
        active current_span g

  unfoldable pub sc_write : ℕ → GlobalState Span → Outcome (GlobalState Span)
  unfolding set_at_index
  sc_write active g = do
    i ← thread_index g active
    x ← clocks_at g i
    clock ← set_at_index g.last_sc_write_per_thread x.clock i
    ret (record g { last_sc_write_per_thread = clock })

  unfoldable pub sc_read : ℕ → GlobalState Span → Outcome (GlobalState Span)
  unfolding join
  sc_read active g = do
    i ← thread_index g active
    x ← clocks_at g i
    ret (with_clocks g i (record x { read_seqcst = join x.read_seqcst g.last_sc_fence }))
