-- ===== src/DataRace/ThreadTests.antt =====
-- The clocks of two threads at concrete states, with spans that are numbers (0 the dummy).
use miri.Base.{
  ℕ, ◌-◌, ◌≤◌, ◌≡◌, ◌≢◌, refl, true, false, none, some, [], ◌∷◌, get_elem?, ret, Returns, arith,
  zero, suc, subst,
}
use mathlib.Core.Option.{some-injective}
use miri.VectorClock.{VClock, at}
use miri.DataRace.Tests.{number_spans, stamp, with_clock}
use miri.DataRace.Orderings.{AtomicFenceOrd}
use miri.DataRace.Cell.{ThreadClockSet}
use miri.DataRace.History.{tm}
use miri.DataRace.Threads.{
  ThreadExtraState, GlobalState, atomic_fence, thread_joined, thread_terminated,
}
use miri.DataRace.Creation.{start_thread, find_candidate}
use miri.DataRace.Epochs.{epoch, Released, Private, IsValid, Runs}
use miri.DataRace.Fences.{atomic_fence_lem}
use miri.DataRace.Joining.{JoinSpec, thread_joined_lem}
use miri.DataRace.Initial.{TerminatedWith, thread_terminated_lem, nil-Released}
use miri.DataRace.Created.{Started, start_thread_lem}
use miri.DataRace.Reuse.{find_candidate-none}

-- the main thread's clocks after it has started another, and that one's after it has terminated
abbrev main_clocks : ThreadClockSet ℕ
main_clocks = with_clock (stamp 2 ∷ [])

abbrev other_clocks : ThreadClockSet ℕ
other_clocks = with_clock (stamp 1 ∷ stamp 2 ∷ [])

abbrev left_clock : VClock ℕ
left_clock = stamp 1 ∷ stamp 1 ∷ []

abbrev main_info : ThreadExtraState ℕ
main_info = record { vector_index = some 0; termination_vector_clock = none }

abbrev other_info : ThreadExtraState ℕ
other_info = record { vector_index = some 1; termination_vector_clock = some left_clock }

abbrev two : GlobalState ℕ
two = record {
  multi_threaded = true;
  ongoing_action_data_race_free = false;
  vector_clocks = main_clocks ∷ other_clocks ∷ [];
  vector_info = 0 ∷ 1 ∷ [];
  thread_info = main_info ∷ other_info ∷ [];
  reuse_candidates = 1 ∷ [];
  last_sc_fence = [];
  last_sc_write_per_thread = [];
  track_outdated_loads = false;
  weak_memory = true;
}

left-Released : Released two.vector_clocks left_clock
unfolding at
left-Released zero = omega arith
left-Released (suc zero) = omega arith
left-Released (suc (suc i)) = omega arith

main-Private : Private two.vector_clocks 0 main_clocks
unfolding at
main-Private = record {
  others = λ i ne. others i ne;
  acquiring = nil-Released two.vector_clocks;
  releasing = nil-Released two.vector_clocks;
}
  where
    others : (i : ℕ) → i ≢ 0 → tm (stamp 2 ∷ []) i ≤ epoch two.vector_clocks i - 1
    others zero ne = absurd (ne refl)
    others (suc i) ne = omega arith

other-Private : Private two.vector_clocks 1 other_clocks
unfolding at
other-Private = record {
  others = λ i ne. others i ne;
  acquiring = nil-Released two.vector_clocks;
  releasing = nil-Released two.vector_clocks;
}
  where
    others : (i : ℕ) → i ≢ 1 → tm (stamp 1 ∷ stamp 2 ∷ []) i ≤ epoch two.vector_clocks i - 1
    others zero ne = omega arith
    others (suc zero) ne = absurd (ne refl)
    others (suc (suc i)) ne = omega arith

two-IsValid : IsValid two
two-IsValid = record {
  threads = threads;
  terminated = terminated;
  fence = nil-Released two.vector_clocks;
}
  where
    threads :
        (j : ℕ) (x : ThreadClockSet ℕ)
        → get_elem? two.vector_clocks j ≡ some x
        → Private two.vector_clocks j x
    threads zero x e =
        subst (Private two.vector_clocks 0) (some-injective main_clocks x e) main-Private
    threads (suc zero) x e =
        subst (Private two.vector_clocks 1) (some-injective other_clocks x e) other-Private
    threads (suc (suc j)) x e = cc

    terminated :
        (t : ℕ) (info : ThreadExtraState ℕ) (c : VClock ℕ)
        → get_elem? two.thread_info t ≡ some info
        → info.termination_vector_clock ≡ some c
        → Released two.vector_clocks c
    terminated zero info c e f = cc
    terminated (suc zero) info c e f =
        subst (Released two.vector_clocks) (some-injective left_clock c cc) left-Released
    terminated (suc (suc t)) info c e f = cc

main-Runs : Runs two 0 0 main_clocks
main-Runs = record { index = refl; clocks = refl }

atomic_fence_lem_example : Returns (atomic_fence AtomicFenceOrd.seq_cst 0 7 two) IsValid
unfolding at
atomic_fence_lem_example =
    atomic_fence_lem two 0 0 main_clocks AtomicFenceOrd.seq_cst 7 two-IsValid main-Runs
      (omega arith)

-- one live thread is left
thread_joined_lem_example :
    Returns (thread_joined 1 1 0 two) (JoinSpec two 0 main_clocks left_clock)
unfolding at
thread_joined_lem_example =
    thread_joined_lem two 0 0 1 1 main_clocks other_info left_clock two-IsValid main-Runs
      (omega arith) refl refl ((λ p. cc), (other_clocks, refl))

thread_terminated_lem_example :
    Returns (thread_terminated 0 7 two) (TerminatedWith two 0 main_clocks)
unfolding at
thread_terminated_lem_example =
    thread_terminated_lem two 0 0 main_clocks main_info 7 two-IsValid refl refl refl (omega arith)

start_thread_lem_example : Returns (start_thread 0 1 7 two) (Started two 0 1 main_clocks)
unfolding at
start_thread_lem_example =
    start_thread_lem two 0 1 main_clocks other_clocks 7 two-IsValid (λ p. cc) refl refl
      (omega arith) (omega arith)

find_candidate-none_example : find_candidate two (1 ∷ []) ≡ ret none
unfolding at
find_candidate-none_example =
    find_candidate-none two (1 ∷ []) 0 main_clocks two-IsValid refl refl
      ((refl, (other_clocks, refl, omega arith)), tt)
