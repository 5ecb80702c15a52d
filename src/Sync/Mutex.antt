-- ===== src/Sync/Mutex.antt =====
-- src/concurrency/sync.rs: the mutex. A method is given the active thread, and returns the mutex and
-- the threads after it. Return values that a woken thread writes to its memory are not modelled.
pub mod Invariant
pub mod Unlock
pub mod Steps
use miri.Base.{
  ℕ, zero, suc, ◌+◌, ◌-◌, ◌^◌, Bool, true, false, not, ◌==◌, ltb, if◌then◌else◌, Option, none, some,
  is_some, List, [], ◌∷◌, ◌++◌, Outcome, panic, ret, ◌>>=◌, ◌>>◌, assert,
}
use miri.Sync.Clocks.{Clocks}
use miri.Sync.Threads.{Threads, mutex, block_thread, unblock_thread, acquire_clock, release_clock}

pub record Mutex (C : Type 0) : Type 0 where
  pub owner : Option ℕ
  pub lock_count : ℕ
  pub queue : List ℕ
  pub clock : C

abbrev pub usize_mod : ℕ
usize_mod = 2 ^ 64

-- `usize::strict_add(1)`
abbrev pub strict_increment : ℕ → Outcome ℕ
strict_increment n = if ltb (n + 1) usize_mod then ret (n + 1) else panic

-- `usize::strict_sub(1)`
abbrev pub strict_decrement : ℕ → Outcome ℕ
strict_decrement n = if n == 0 then panic else ret (n - 1)

-- the old lock count, or `none` if the thread does not own the mutex
abbrev pub Unlocked : Type 0 → Type 0
Unlocked C = Option ℕ × Mutex C × Threads C

-- the owner's part of `mutex_lock`
claim : ℕ → Option ℕ → ℕ → Outcome (Option ℕ)
claim t none count = ret (some t)
claim t (some current_owner) count = do
  assert (t == current_owner)
  assert (ltb 0 count)
  ret (some current_owner)

module _ {C : Type 0} ⦃clocks : Clocks C⦄ where
  unfoldable pub mutex_lock : ℕ → Mutex C → Threads C → Outcome (Mutex C × Threads C)
  unfolding claim acquire_clock
  mutex_lock t m th = do
    owner ← claim t m.owner m.lock_count
    count ← strict_increment m.lock_count
    ret (record m { owner = owner; lock_count = count }, acquire_clock m.clock t th)

  -- `unblock_thread` with the callback of `mutex_enqueue_and_block`
  unfoldable pub wake_waiter : ℕ → Mutex C → Threads C → Outcome (Mutex C × Threads C)
  unfolding unblock_thread mutex_lock
  wake_waiter w m th = do
    th' ← unblock_thread mutex w th
    assert (not (is_some m.owner))
    mutex_lock w m th'

  -- `pop_front` and the transfer to the thread that was in front
  unfoldable pub hand_over : List ℕ → Mutex C → Threads C → Outcome (Mutex C × Threads C)
  unfolding wake_waiter
  hand_over [] m th = ret (m, th)
  hand_over (w ∷ queue) m th = wake_waiter w (record m { queue = queue }) th

  -- the owner gives back one of its locks
  unfoldable pub give_back : ℕ → Mutex C → Threads C → Outcome (Mutex C × Threads C)
  unfolding hand_over release_clock
  give_back t m th = strict_decrement m.lock_count >>= λ count.
      if count == 0
      then (release_clock t th >>= λ (c, th').
          hand_over m.queue (record m { owner = none; lock_count = count; clock = c }) th')
      else ret (record m { lock_count = count }, th)

  unfoldable pub unlock_as : ℕ → Option ℕ → Mutex C → Threads C → Outcome (Unlocked C)
  unfolding give_back
  unlock_as t none m th = ret (none, m, th)
  unlock_as t (some current_owner) m th =
      if current_owner == t
      then (give_back t m th >>= λ (m', th'). ret (some m.lock_count, m', th'))
      else ret (none, m, th)

  unfoldable pub mutex_unlock : ℕ → Mutex C → Threads C → Outcome (Unlocked C)
  unfolding unlock_as
  mutex_unlock t m th = unlock_as t m.owner m th

  unfoldable pub mutex_enqueue_and_block : ℕ → Mutex C → Threads C → Outcome (Mutex C × Threads C)
  unfolding block_thread
  mutex_enqueue_and_block t m th = do
    assert (is_some m.owner)
    th' ← block_thread mutex t th
    ret (record m { queue = m.queue ++ t ∷ [] }, th')
