-- ===== src/Sync/RwLock/Steps.antt =====
-- sync.rs: the runs of threads that lock, wait for and unlock one read-write lock.
use miri.Base.{ℕ, ◌+◌, ◌<◌, ◌≡◌, refl, subst, Bool, true, false, none, some, [], ret, Returns}
use miri.Sync.Clocks.{Clocks}
use miri.Sync.Threads.{Threads, is_enabled}
use miri.Sync.Mutex.{usize_mod}
use miri.Sync.RwLock.{
  RwLock, lookup, count_of, is_locked, is_write_locked, rwlock_reader_lock, rwlock_writer_lock,
  rwlock_reader_unlock, rwlock_writer_unlock, rwlock_enqueue_and_block_reader,
  rwlock_enqueue_and_block_writer,
}
use miri.Sync.RwLock.Exclusion.{IsValid, enqueue_reader_lem, enqueue_writer_lem, writer_lock_lem}
use miri.Sync.RwLock.Readers.{reader_lock_lem}
use miri.Sync.RwLock.Unlock.{
  ReaderUnlocked, WriterUnlocked, rwlock_reader_unlock_lem, rwlock_writer_unlock_lem,
}

-- `RwLock::default()`
abbrev pub free : {C : Type 0} → C → RwLock C
free c = record {
  writer = none;
  readers = [];
  writer_queue = [];
  reader_queue = [];
  clock_unlocked = c;
  clock_current_readers = c;
}

module _ {C : Type 0} ⦃clocks : Clocks C⦄ where
  -- A step of an enabled thread: it locks where the lock allows it, waits where it does not, or
  -- unlocks. No counter overflows.
  pub data Step (l : RwLock C) (th : Threads C) (l' : RwLock C) (th' : Threads C) : Type 0 where
    lock_shared :
        (t : ℕ)
        → is_enabled (th.blocked t) ≡ true
        → is_write_locked l ≡ false
        → count_of (lookup t l.readers) + 1 < usize_mod
        → rwlock_reader_lock t l th ≡ ret (l', th')
        → Step l th l' th'
    lock_exclusive :
        (t : ℕ)
        → is_enabled (th.blocked t) ≡ true
        → is_locked l ≡ false
        → rwlock_writer_lock t l th ≡ ret (l', th')
        → Step l th l' th'
    wait_shared :
        (t : ℕ)
        → is_enabled (th.blocked t) ≡ true
        → is_write_locked l ≡ true
        → rwlock_enqueue_and_block_reader t l th ≡ ret (l', th')
        → Step l th l' th'
    wait_exclusive :
        (t : ℕ)
        → is_enabled (th.blocked t) ≡ true
        → is_locked l ≡ true
        → rwlock_enqueue_and_block_writer t l th ≡ ret (l', th')
        → Step l th l' th'
    unlock_shared :
        (t : ℕ) (r : Bool) (c : C)
        → is_enabled (th.blocked t) ≡ true
        → clocks.tick t (th.clock t) ≡ ret c
        → rwlock_reader_unlock t l th ≡ ret (r, l', th')
        → Step l th l' th'
    unlock_exclusive :
        (t : ℕ) (r : Bool) (c : C)
        → is_enabled (th.blocked t) ≡ true
        → clocks.tick t (th.clock t) ≡ ret c
        → rwlock_writer_unlock t l th ≡ ret (r, l', th')
        → Step l th l' th'

  pub data Reach (c : C) (clock : ℕ → C) : RwLock C → Threads C → Type 0 where
    start : Reach c clock (free c) (record { blocked = λ _. none; clock = clock })
    after :
        {l l' : RwLock C} {th th' : Threads C}
        → Reach c clock l th
        → Step l th l' th'
        → Reach c clock l' th'

  Step-IsValid :
      {l l' : RwLock C} {th th' : Threads C} → IsValid l th → Step l th l' th' → IsValid l' th'
  Step-IsValid {l} {l'} {th} {th'} v (lock_shared t e n b q) =
      (subst
        (λ x. Returns x λ (l1, th1).
          IsValid l1 th1 × (lookup t l1.readers ≡ some (count_of (lookup t l.readers) + 1)))
        q (reader_lock_lem t l th v n b)).0
  Step-IsValid {l} {l'} {th} {th'} v (lock_exclusive t e n q) =
      (subst (λ x. Returns x λ (l1, th1). IsValid l1 th1 × (l1.writer ≡ some t)) q
        (writer_lock_lem t l th v.in_queue n)).0
  Step-IsValid {l} {l'} {th} {th'} v (wait_shared t e n q) =
      subst (λ x. Returns x λ (l1, th1). IsValid l1 th1) q (enqueue_reader_lem t l th v n e)
  Step-IsValid {l} {l'} {th} {th'} v (wait_exclusive t e n q) =
      subst (λ x. Returns x λ (l1, th1). IsValid l1 th1) q (enqueue_writer_lem t l th v n e)
  Step-IsValid {l} {l'} {th} {th'} v (unlock_shared t r c e k q) =
      (subst (λ x. Returns x (ReaderUnlocked t l)) q (rwlock_reader_unlock_lem t l th v k)).0
  Step-IsValid {l} {l'} {th} {th'} v (unlock_exclusive t r c e k q) =
      (subst (λ x. Returns x (WriterUnlocked t l)) q (rwlock_writer_unlock_lem t l th v k)).0

  -- In every state that threads reach from a free read-write lock by locking it, waiting for it and
  -- unlocking it, the lock is valid: there are no readers beside a writer, and threads wait only for
  -- a lock that is held.
  pub Reach-IsValid :
      (c : C) (clock : ℕ → C) {l : RwLock C} {th : Threads C} → Reach c clock l th → IsValid l th
  Reach-IsValid c clock start = record {
    exclusive = λ p. refl;
    counted = tt;
    writers_wait = λ p. refl;
    readers_wait = λ p. refl;
    in_queue = record {
      waiting = λ t. refl;
      apart = λ t. refl;
      distinct_writers = tt;
      distinct_readers = tt;
    };
  }
  Reach-IsValid c clock (after r s) = Step-IsValid (Reach-IsValid c clock r) s
