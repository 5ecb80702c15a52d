-- ===== src/Sync/RwLock.antt =====
-- src/concurrency/sync.rs: the read-write lock. The table of readers is an association list. Return
-- values that a woken thread writes to its memory are not modelled.
pub mod Exclusion
pub mod Readers
pub mod Unlock
pub mod Steps
use miri.Base.{
  ℕ, ◌+◌, ◌-◌, Bool, true, false, if◌then◌else◌, not, ◌||◌, ◌==◌, ltb, List, [], ◌∷◌, ◌++◌, Outcome,
  panic, ret, ◌>>=◌, ◌>>◌, assert, Option, none, some, is_some,
}
use miri.Sync.Clocks.{Clocks}
use miri.Sync.Threads.{Threads, rwlock, block_thread, unblock_thread, acquire_clock, release_clock}
use miri.Sync.Mutex.{strict_increment}

pub record RwLock (C : Type 0) : Type 0 where
  pub writer : Option ℕ
  pub readers : List (ℕ × ℕ)
  pub writer_queue : List ℕ
  pub reader_queue : List ℕ
  pub clock_unlocked : C
  pub clock_current_readers : C

abbrev pub is_empty {ℓ} : {A : Type ℓ} → List A → Bool
is_empty [] = true
is_empty (_ ∷ _) = false

abbrev pub lookup : ℕ → List (ℕ × ℕ) → Option ℕ
lookup t [] = none
lookup t ((u, count) ∷ readers) = if u == t then some count else lookup t readers

-- the table without the entry of `t`
abbrev pub removed : ℕ → List (ℕ × ℕ) → List (ℕ × ℕ)
removed t [] = []
removed t ((u, count) ∷ readers) =
    let rest = removed t readers in if u == t then rest else (u, count) ∷ rest

-- the table with `count` for `t`
abbrev pub stored : ℕ → ℕ → List (ℕ × ℕ) → List (ℕ × ℕ)
stored t count readers = (t, count) ∷ removed t readers

abbrev pub count_of : Option ℕ → ℕ
count_of none = 0
count_of (some count) = count

-- `entry(thread).or_insert(0)` and the increment
unfoldable pub count_reader : ℕ → List (ℕ × ℕ) → Outcome (List (ℕ × ℕ))
count_reader t readers = do
  count ← strict_increment (count_of (lookup t readers))
  ret (stored t count readers)

-- one lock less for a reader with this count
unfoldable pub uncount_reader : ℕ → ℕ → List (ℕ × ℕ) → Outcome (List (ℕ × ℕ))
uncount_reader t count readers = do
  assert (ltb 0 count)
  ret (if count - 1 == 0 then removed t readers else stored t (count - 1) readers)

module _ {C : Type 0} where
  abbrev pub is_locked : RwLock C → Bool
  is_locked l = is_some l.writer || not (is_empty l.readers)

  abbrev pub is_write_locked : RwLock C → Bool
  is_write_locked l = is_some l.writer

  unfoldable pub rwlock_enqueue_and_block_reader :
      ℕ → RwLock C → Threads C → Outcome (RwLock C × Threads C)
  unfolding block_thread
  rwlock_enqueue_and_block_reader t l th = do
    assert (is_write_locked l)
    th' ← block_thread rwlock t th
    ret (record l { reader_queue = l.reader_queue ++ t ∷ [] }, th')

  unfoldable pub rwlock_enqueue_and_block_writer :
      ℕ → RwLock C → Threads C → Outcome (RwLock C × Threads C)
  unfolding block_thread
  rwlock_enqueue_and_block_writer t l th = do
    assert (is_locked l)
    th' ← block_thread rwlock t th
    ret (record l { writer_queue = l.writer_queue ++ t ∷ [] }, th')

module _ {C : Type 0} ⦃clocks : Clocks C⦄ where
  unfoldable pub rwlock_reader_lock : ℕ → RwLock C → Threads C → Outcome (RwLock C × Threads C)
  unfolding count_reader acquire_clock
  rwlock_reader_lock t l th = do
    assert (not (is_write_locked l))
    readers ← count_reader t l.readers
    ret (record l { readers = readers }, acquire_clock l.clock_unlocked t th)

  unfoldable pub rwlock_writer_lock : ℕ → RwLock C → Threads C → Outcome (RwLock C × Threads C)
  unfolding acquire_clock
  rwlock_writer_lock t l th = do
    assert (not (is_locked l))
    ret (record l { writer = some t }, acquire_clock l.clock_unlocked t th)

  -- `unblock_thread` with the callback of `rwlock_enqueue_and_block_writer`
  unfoldable pub wake_writer : ℕ → RwLock C → Threads C → Outcome (RwLock C × Threads C)
  unfolding unblock_thread rwlock_writer_lock
  wake_writer w l th = unblock_thread rwlock w th >>= λ th'. rwlock_writer_lock w l th'

  -- `unblock_thread` with the callback of `rwlock_enqueue_and_block_reader`
  unfoldable pub wake_reader : ℕ → RwLock C → Threads C → Outcome (RwLock C × Threads C)
  unfolding unblock_thread rwlock_reader_lock
  wake_reader r l th = unblock_thread rwlock r th >>= λ th'. rwlock_reader_lock r l th'

  unfoldable pub wake_readers : List ℕ → RwLock C → Threads C → Outcome (RwLock C × Threads C)
  unfolding wake_reader
  wake_readers [] l th = ret (l, th)
  wake_readers (r ∷ queue) l th = wake_reader r l th >>= λ (l', th'). wake_readers queue l' th'

  -- the last reader has gone: the first waiting writer gets the lock
  unfoldable pub to_writer : List ℕ → RwLock C → Threads C → Outcome (RwLock C × Threads C)
  unfolding wake_writer
  to_writer [] l th = ret (l, th)
  to_writer (w ∷ queue) l th = wake_writer w (record l { writer_queue = queue }) th

  -- the writer has gone: the first waiting writer gets the lock, or else all waiting readers
  unfoldable pub to_writer_or_readers :
      List ℕ → RwLock C → Threads C → Outcome (RwLock C × Threads C)
  unfolding wake_writer wake_readers
  to_writer_or_readers [] l th = wake_readers l.reader_queue (record l { reader_queue = [] }) th
  to_writer_or_readers (w ∷ queue) l th = wake_writer w (record l { writer_queue = queue }) th

  unfoldable pub reader_unlock_as :
      ℕ → Option ℕ → RwLock C → Threads C → Outcome (Bool × RwLock C × Threads C)
  unfolding uncount_reader release_clock to_writer
  reader_unlock_as t none l th = ret (false, l, th)
  reader_unlock_as t (some count) l th = uncount_reader t count l.readers >>= λ readers.
      release_clock t th >>= λ (c, th').
      let shared = clocks.join l.clock_current_readers c in
      let l' = record l { readers = readers; clock_current_readers = shared } in
      (if not (is_locked l')
        then to_writer l.writer_queue (record l' { clock_unlocked = shared }) th'
        else ret (l', th'))
      >>= λ (l1, th1). ret (true, l1, th1)

  unfoldable pub rwlock_reader_unlock :
      ℕ → RwLock C → Threads C → Outcome (Bool × RwLock C × Threads C)
  unfolding reader_unlock_as
  rwlock_reader_unlock t l th = reader_unlock_as t (lookup t l.readers) l th

  unfoldable pub writer_unlock_as :
      ℕ → Option ℕ → RwLock C → Threads C → Outcome (Bool × RwLock C × Threads C)
  unfolding release_clock to_writer_or_readers
  writer_unlock_as t none l th = ret (false, l, th)
  writer_unlock_as t (some current_writer) l th =
      if not (current_writer == t)
      then ret (false, l, th)
      else (release_clock t th >>= λ (c, th').
          to_writer_or_readers l.writer_queue (record l { writer = none; clock_unlocked = c }) th'
          >>= λ (l1, th1). ret (true, l1, th1))

  unfoldable pub rwlock_writer_unlock :
      ℕ → RwLock C → Threads C → Outcome (Bool × RwLock C × Threads C)
  unfolding writer_unlock_as
  rwlock_writer_unlock t l th = writer_unlock_as t l.writer l th
