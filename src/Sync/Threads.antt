-- ===== src/Sync/Threads.antt =====
-- src/concurrency/thread.rs and data_race.rs: blocking a thread, waking it, and its clock, as far as
-- one synchronization object sees them. Who is blocked is a function of the thread's id. The callback
-- that a blocked thread runs when it is woken is part of the object that blocks it.
use miri.Base.{
  ℕ, Bool, true, false, ◌==◌, if◌then◌else◌, Option, none, some, Outcome, ret, ◌>>=◌, ◌>>◌, assert,
}
use miri.Sync.Clocks.{Clocks}

-- the reasons that the objects modelled give
pub data BlockReason : Type 0 where
  mutex rwlock init_once : BlockReason

abbrev pub same_reason : BlockReason → BlockReason → Bool
same_reason mutex mutex = true
same_reason rwlock rwlock = true
same_reason init_once init_once = true
same_reason _ _ = false

pub record Threads (C : Type 0) : Type 0 where
  pub blocked : ℕ → Option BlockReason
  pub clock : ℕ → C

abbrev pub update {ℓ} : {A : Type ℓ} → (ℕ → A) → ℕ → A → ℕ → A
update f k v j = if j == k then v else f j

abbrev pub is_blocked_on : BlockReason → Option BlockReason → Bool
is_blocked_on reason none = false
is_blocked_on reason (some actual) = same_reason reason actual

abbrev pub is_enabled : Option BlockReason → Bool
is_enabled none = true
is_enabled (some _) = false

module _ {C : Type 0} where
  unfoldable pub block_thread : BlockReason → ℕ → Threads C → Outcome (Threads C)
  block_thread reason t th = do
    assert (is_enabled (th.blocked t))
    ret (record th { blocked = update th.blocked t (some reason) })

  -- `unblock_thread` up to the call of the callback
  unfoldable pub unblock_thread : BlockReason → ℕ → Threads C → Outcome (Threads C)
  unblock_thread reason t th = do
    assert (is_blocked_on reason (th.blocked t))
    ret (record th { blocked = update th.blocked t none })

module _ {C : Type 0} ⦃clocks : Clocks C⦄ where
  unfoldable pub acquire_clock : C → ℕ → Threads C → Threads C
  acquire_clock c t th = record th { clock = update th.clock t (clocks.join (th.clock t) c) }

  -- the clock that the closure is given, and the threads after the increment
  unfoldable pub release_clock : ℕ → Threads C → Outcome (C × Threads C)
  release_clock t th = do
    ticked ← clocks.tick t (th.clock t)
    ret (th.clock t, record th { clock = update th.clock t ticked })
