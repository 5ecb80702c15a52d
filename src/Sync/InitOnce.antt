-- ===== src/Sync/InitOnce.antt =====
-- src/concurrency/init_once.rs: one-time initialization, and its use in src/shims/windows/sync.rs,
-- whose callback a waiting thread runs when it is woken. What is written to the memory of the program
-- is not modelled, but for whether the caller has to do the initialization (`pending`).
pub mod Complete
use miri.Base.{
  ℕ, Bool, true, false, if◌then◌else◌, not, List, [], ◌∷◌, ◌++◌, Outcome, panic, ret, ◌>>=◌, ◌>>◌,
  assert, Option, none, some,
}
use miri.Sync.Clocks.{Clocks}
use miri.Sync.Threads.{
  Threads, init_once, block_thread, unblock_thread, acquire_clock, release_clock,
}

pub data InitOnceStatus : Type 0 where
  uninitialized begun complete : InitOnceStatus

-- the equality that `assert_eq!` tests
abbrev pub same_status : InitOnceStatus → InitOnceStatus → Bool
same_status uninitialized uninitialized = true
same_status begun begun = true
same_status complete complete = true
same_status _ _ = false

pub record InitOnce (C : Type 0) : Type 0 where
  pub status : InitOnceStatus
  pub waiters : List ℕ
  pub clock : C

module _ {C : Type 0} where
  unfoldable pub begin : InitOnce C → Outcome (InitOnce C)
  begin o = do assert (same_status o.status uninitialized); ret (record o { status = begun })

  unfoldable pub init_once_enqueue_and_block :
      ℕ → InitOnce C → Threads C → Outcome (InitOnce C × Threads C)
  unfolding block_thread
  init_once_enqueue_and_block t o th = do
    assert (not (same_status o.status complete))
    th' ← block_thread init_once t th
    ret (record o { waiters = o.waiters ++ t ∷ [] }, th')

module _ {C : Type 0} ⦃clocks : Clocks C⦄ where
  unfoldable pub init_once_observe_completed : ℕ → InitOnce C → Threads C → Outcome (Threads C)
  unfolding acquire_clock
  init_once_observe_completed t o th = do
    assert (same_status o.status complete)
    ret (acquire_clock o.clock t th)

  try_begin_at :
      InitOnceStatus → ℕ → InitOnce C → Threads C → Outcome (Option Bool × InitOnce C × Threads C)
  unfolding begin init_once_observe_completed
  try_begin_at uninitialized t o th = begin o >>= λ o'. ret (some true, o', th)
  try_begin_at complete t o th =
      init_once_observe_completed t o th >>= λ th'. ret (some false, o, th')
  try_begin_at begun t o th = ret (none, o, th)

  -- The result is `some pending`, or `none` if the thread has to block.
  unfoldable pub init_once_try_begin :
      ℕ → InitOnce C → Threads C → Outcome (Option Bool × InitOnce C × Threads C)
  unfolding try_begin_at
  init_once_try_begin t o th = try_begin_at o.status t o th

  may_go_on : Option Bool × InitOnce C × Threads C → Outcome (InitOnce C × Threads C)
  may_go_on (none, o, th) = panic
  may_go_on (some pending, o, th) = ret (o, th)

  -- `unblock_thread` with the callback of `InitOnceBeginInitialize`
  unfoldable pub wake_waiter : ℕ → InitOnce C → Threads C → Outcome (InitOnce C × Threads C)
  unfolding unblock_thread init_once_try_begin may_go_on
  wake_waiter w o th = do
    th' ← unblock_thread init_once w th
    r ← init_once_try_begin w o th'
    may_go_on r

  -- the loop over the waiters
  unfoldable pub wake_all : List ℕ → InitOnce C → Threads C → Outcome (InitOnce C × Threads C)
  unfolding wake_waiter
  wake_all [] o th = ret (o, th)
  wake_all (w ∷ waiters) o th = wake_waiter w o th >>= λ (o', th'). wake_all waiters o' th'

  unfoldable pub init_once_complete : ℕ → InitOnce C → Threads C → Outcome (InitOnce C × Threads C)
  unfolding release_clock wake_all
  init_once_complete t o th = do
    assert (same_status o.status begun)
    (c, th') ← release_clock t th
    wake_all o.waiters (record { status = complete; waiters = []; clock = c }) th'

  -- the first waiter is taken from the queue and woken
  wake_first : List ℕ → InitOnce C → Threads C → Outcome (InitOnce C × Threads C)
  unfolding wake_waiter
  wake_first [] o th = ret (o, th)
  wake_first (w ∷ waiters) o th = wake_waiter w (record o { waiters = waiters }) th

  unfoldable pub init_once_fail : ℕ → InitOnce C → Threads C → Outcome (InitOnce C × Threads C)
  unfolding release_clock wake_first
  init_once_fail t o th = do
    assert (same_status o.status begun)
    (c, th') ← release_clock t th
    wake_first o.waiters (record o { status = uninitialized; clock = c }) th'

  begin_or_block :
      ℕ → Option Bool × InitOnce C × Threads C → Outcome (Option Bool × InitOnce C × Threads C)
  unfolding init_once_enqueue_and_block
  begin_or_block t (some pending, o, th) = ret (some pending, o, th)
  begin_or_block t (none, o, th) =
      init_once_enqueue_and_block t o th >>= λ (o', th'). ret (none, o', th')

  -- `InitOnceBeginInitialize`, on valid arguments
  unfoldable pub init_once_begin_initialize :
      ℕ → InitOnce C → Threads C → Outcome (Option Bool × InitOnce C × Threads C)
  unfolding init_once_try_begin begin_or_block
  init_once_begin_initialize t o th = init_once_try_begin t o th >>= begin_or_block t
