-- ===== src/Sync/Tests.antt =====
-- Runs of the synchronization objects at concrete inputs, with vector clocks whose spans are numbers.
use mathlib.Core.Option.{some-injective}
use miri.Base.{
  subst, ℕ, ◌≡◌, refl, false, ◌==◌, if◌then◌else◌, none, some, [], ◌∷◌, Returns, arith, inl,
}
use miri.VectorClock.{VClock, join, increment_index}
use miri.VectorClock.Timestamp.{Spans}
use miri.Sync.Clocks.{Clocks, vector_clocks}
use miri.Sync.Threads.{
  Threads, BlockReason, mutex, rwlock, init_once, is_blocked_on, acquire_clock, update,
}
use miri.Sync.Mutex
use miri.Sync.Mutex.{Mutex, mutex_lock, mutex_unlock, mutex_enqueue_and_block}
use miri.Sync.Mutex.Invariant.{enqueue-IsValid}
use miri.Sync.Mutex.Steps.{
  lock, Reach, start, after, running, reachable-IsValid, Happens, mutex_unlock-Happens,
}
use miri.Sync.InitOnce.{
  InitOnce, uninitialized, begun, complete, init_once_complete, init_once_fail,
  init_once_begin_initialize,
}
use miri.Sync.InitOnce.Complete.{
  Completed, Restarted, KeepsValid, init_once_complete_lem, init_once_fail_lem,
  init_once_begin_initialize_lem,
}
use miri.Sync.InitOnce
use miri.Sync.RwLock
use miri.Sync.RwLock.{RwLock, rwlock_reader_unlock, rwlock_writer_unlock, rwlock_writer_lock}
use miri.Sync.RwLock.Steps.{lock_exclusive, Reach-IsValid}

instance abbrev number_spans : Spans ℕ
number_spans = record {
  dummy = 0;
  is_dummy = λ s. s == 0;
  substitute_dummy = λ s t. if s == 0 then t else s;
}

instance abbrev clocks : Clocks (VClock ℕ)
clocks = vector_clocks 7

-- thread 1 owns the mutex and thread 2 waits for it
abbrev owned : Mutex (VClock ℕ)
owned = record { owner = some 1; lock_count = 1; queue = 2 ∷ []; clock = [] }

abbrev waiting : BlockReason → Threads (VClock ℕ)
waiting reason = record { blocked = update (λ _. none) 2 (some reason); clock = λ _. [] }

owned-IsValid : Mutex.Invariant.IsValid owned (waiting mutex)
owned-IsValid = record {
  idle = λ p. cc;
  held = λ t p. (
    omega arith,
    subst (λ u. is_blocked_on mutex ((waiting mutex).blocked u) ≡ false) (some-injective 1 t p)
        refl,
  );
  in_queue = record { waiting = λ t. ground arith; distinct = (refl, tt) };
}

mutex_unlock-Happens_example :
    Returns (mutex_unlock 1 owned (waiting mutex)) (Happens 1 2 (waiting mutex))
unfolding increment_index
mutex_unlock-Happens_example =
    mutex_unlock-Happens 1 2 [] owned (waiting mutex) owned-IsValid refl refl refl refl

abbrev locked_by_1 : Mutex (VClock ℕ)
locked_by_1 = record { owner = some 1; lock_count = 1; queue = []; clock = [] }

one_step : Reach [] (λ _. []) locked_by_1 (running (update (λ _. []) 1 []))
unfolding mutex_lock acquire_clock join
one_step = after start (lock 1 refl (inl refl) (omega arith) refl)

reachable_example : Mutex.Invariant.IsValid locked_by_1 (running (update (λ _. []) 1 []))
reachable_example = reachable-IsValid [] (λ _. []) one_step

-- thread 2 waits for an initialization
abbrev initializing : InitOnce (VClock ℕ)
initializing = record { status = begun; waiters = 2 ∷ []; clock = [] }

initializing-IsValid : InitOnce.Complete.IsValid initializing (waiting init_once)
initializing-IsValid = ((λ t. ground arith, (refl, tt)), λ n. cc)

init_once_complete_example :
    Returns
      (init_once_complete 1 initializing (waiting init_once))
      (Completed 1 initializing (waiting init_once))
unfolding increment_index
init_once_complete_example =
    init_once_complete_lem 1 initializing (waiting init_once) initializing-IsValid refl refl

-- thread 1 writes, thread 2 waits to read and nobody to write
abbrev written : RwLock (VClock ℕ)
written = record {
  writer = some 1;
  readers = [];
  writer_queue = [];
  reader_queue = 2 ∷ [];
  clock_unlocked = [];
  clock_current_readers = [];
}

written-IsValid : RwLock.Exclusion.IsValid written (waiting rwlock)
written-IsValid = record {
  exclusive = λ p. refl;
  counted = tt;
  writers_wait = λ p. refl;
  readers_wait = λ p. cc;
  in_queue = record {
    waiting = λ t. ground arith;
    apart = λ t. refl;
    distinct_writers = tt;
    distinct_readers = (refl, tt);
  };
}

-- thread 1 reads, and thread 2 waits to write
abbrev read_by_1 : RwLock (VClock ℕ)
read_by_1 = record written {
  writer = none;
  readers = (1, 1) ∷ [];
  writer_queue = 2 ∷ [];
  reader_queue = [];
}

read_by_1-IsValid : RwLock.Exclusion.IsValid read_by_1 (waiting rwlock)
read_by_1-IsValid = record {
  exclusive = λ p. cc;
  counted = (omega arith, tt);
  writers_wait = λ p. cc;
  readers_wait = λ p. refl;
  in_queue = record {
    waiting = λ t. ground arith;
    apart = λ t. ground arith;
    distinct_writers = (refl, tt);
    distinct_readers = tt;
  };
}

abbrev written_by_1 : RwLock (VClock ℕ)
written_by_1 = record written { reader_queue = [] }

one_rwlock_step : RwLock.Steps.Reach [] (λ _. []) written_by_1 (running (update (λ _. []) 1 []))
unfolding rwlock_writer_lock acquire_clock join
one_rwlock_step = RwLock.Steps.after RwLock.Steps.start (lock_exclusive 1 refl refl refl)

Reach-IsValid_example : RwLock.Exclusion.IsValid written_by_1 (running (update (λ _. []) 1 []))
Reach-IsValid_example = Reach-IsValid [] (λ _. []) one_rwlock_step
