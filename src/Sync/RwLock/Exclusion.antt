-- ===== src/Sync/RwLock/Exclusion.antt =====
-- sync.rs: what holds of a read-write lock and its threads between two operations, waiting for
-- it, and locking it to write.
use miri.Base.{
  ℕ, ◌<◌, ◌≡◌, refl, sym, subst, ◌∙◌, true, false, not, ◌||◌, ◌&&◌, ◌==◌, Option, none, some,
  is_some, List, [], ◌∷◌, ◌++◌, All, Returns, arith,
}
use miri.Sync.Clocks.{Clocks}
use miri.Sync.Queue.{contains, IsDistinct, contains-snoc, IsDistinct-snoc}
use miri.Sync.Threads.{
  Threads, BlockReason, rwlock, is_enabled, is_blocked_on, update, block_thread, unblock_thread,
  acquire_clock,
}
use miri.Sync.RwLock.{
  RwLock, is_empty, is_locked, is_write_locked, rwlock_enqueue_and_block_reader,
  rwlock_enqueue_and_block_writer, rwlock_writer_lock, wake_writer,
}

-- the threads that wait are those of the two queues, each in one of them and once
pub record IsQueued {C : Type 0} (l : RwLock C) (th : Threads C) : Type 0 where
  pub waiting :
      (t : ℕ)
      → (contains l.writer_queue t || contains l.reader_queue t)
        ≡ is_blocked_on rwlock (th.blocked t)
  pub apart : (t : ℕ) → (contains l.writer_queue t && contains l.reader_queue t) ≡ false
  pub distinct_writers : IsDistinct l.writer_queue
  pub distinct_readers : IsDistinct l.reader_queue

-- There are no readers beside a writer, each reader has at least one lock, writers wait only for a
-- locked lock, and readers only for a writer.
pub record IsValid {C : Type 0} (l : RwLock C) (th : Threads C) : Type 0 where
  pub exclusive : is_write_locked l ≡ true → l.readers ≡ []
  pub counted : All (λ (r : ℕ × ℕ). 0 < r.1) l.readers
  pub writers_wait : is_locked l ≡ false → l.writer_queue ≡ []
  pub readers_wait : is_write_locked l ≡ false → l.reader_queue ≡ []
  pub in_queue : IsQueued l th

pub enabled-not-waiting :
    (b : Option BlockReason) → is_enabled b ≡ true → is_blocked_on rwlock b ≡ false
enabled-not-waiting none e = refl
enabled-not-waiting (some r) e = cc

pub true-ne-false : ¬ (true ≡ false)
true-ne-false p = cc

not_locked-cases :
    (writer : Option ℕ) (readers : List (ℕ × ℕ))
    → (is_some writer || not (is_empty readers)) ≡ false
    → (writer ≡ none) × (readers ≡ [])
not_locked-cases none [] n = (refl, refl)
not_locked-cases none (r ∷ rs) n = cc
not_locked-cases (some w) rs n = cc

pub no_readers : {C : Type 0} (l : RwLock C) → is_locked l ≡ false → l.readers ≡ []
no_readers l n = (not_locked-cases l.writer l.readers n).1

module _ {C : Type 0} ⦃clocks : Clocks C⦄ where
  IsQueued-enqueue_reader :
      (t : ℕ) (l : RwLock C) (th : Threads C)
      → IsQueued l th
      → is_enabled (th.blocked t) ≡ true
      → IsQueued
          (record l { reader_queue = l.reader_queue ++ t ∷ [] })
          (record th { blocked = update th.blocked t (some rwlock) })
  IsQueued-enqueue_reader t l th i e =
      let free = i.waiting t ∙ enabled-not-waiting (th.blocked t) e in
      record {
        waiting = λ u. rw (contains-snoc l.reader_queue t u) (ground (arith, i.waiting u));
        apart = λ u. rw (contains-snoc l.reader_queue t u) (ground (arith, free, i.apart u));
        distinct_writers = i.distinct_writers;
        distinct_readers = IsDistinct-snoc l.reader_queue t i.distinct_readers (ground arith);
      }

  -- A reader that meets a writer can be queued: the operation returns and keeps the lock valid.
  pub enqueue_reader_lem :
      (t : ℕ) (l : RwLock C) (th : Threads C)
      → IsValid l th
      → is_write_locked l ≡ true
      → is_enabled (th.blocked t) ≡ true
      → Returns (rwlock_enqueue_and_block_reader t l th) λ (l', th'). IsValid l' th'
  unfolding rwlock_enqueue_and_block_reader block_thread
  enqueue_reader_lem t l th v w e =
      rw (w, e)
        record {
          exclusive = v.exclusive;
          counted = v.counted;
          writers_wait = v.writers_wait;
          readers_wait = λ n. cc;
          in_queue = IsQueued-enqueue_reader t l th v.in_queue e;
        }

  IsQueued-enqueue_writer :
      (t : ℕ) (l : RwLock C) (th : Threads C)
      → IsQueued l th
      → is_enabled (th.blocked t) ≡ true
      → IsQueued
          (record l { writer_queue = l.writer_queue ++ t ∷ [] })
          (record th { blocked = update th.blocked t (some rwlock) })
  IsQueued-enqueue_writer t l th i e =
      let free = i.waiting t ∙ enabled-not-waiting (th.blocked t) e in
      record {
        waiting = λ u. rw (contains-snoc l.writer_queue t u) (ground (arith, i.waiting u));
        apart = λ u. rw (contains-snoc l.writer_queue t u) (ground (arith, free, i.apart u));
        distinct_writers = IsDistinct-snoc l.writer_queue t i.distinct_writers (ground arith);
        distinct_readers = i.distinct_readers;
      }

  -- A thread that meets a reader or a writer can be queued as a writer: the operation returns and
  -- keeps the lock valid.
  pub enqueue_writer_lem :
      (t : ℕ) (l : RwLock C) (th : Threads C)
      → IsValid l th
      → is_locked l ≡ true
      → is_enabled (th.blocked t) ≡ true
      → Returns (rwlock_enqueue_and_block_writer t l th) λ (l', th'). IsValid l' th'
  unfolding rwlock_enqueue_and_block_writer block_thread
  enqueue_writer_lem t l th v w e =
      rw (w, e)
        record {
          exclusive = v.exclusive;
          counted = v.counted;
          writers_wait = λ n. absurd (true-ne-false (sym w ∙ n));
          readers_wait = v.readers_wait;
          in_queue = IsQueued-enqueue_writer t l th v.in_queue e;
        }

  -- A lock that nobody holds can be locked by a writer: the operation returns and leaves the lock
  -- valid, with that writer.
  pub writer_lock_lem :
      (t : ℕ) (l : RwLock C) (th : Threads C)
      → IsQueued l th
      → is_locked l ≡ false
      → Returns (rwlock_writer_lock t l th) λ (l', th'). IsValid l' th' × (l'.writer ≡ some t)
  unfolding rwlock_writer_lock acquire_clock
  writer_lock_lem t l th i n = rw (n) (
    record {
      exclusive = λ w. no_readers l n;
      counted = rw (no_readers l n) tt;
      writers_wait = λ f. cc;
      readers_wait = λ f. cc;
      in_queue = record {
        waiting = i.waiting;
        apart = i.apart;
        distinct_writers = i.distinct_writers;
        distinct_readers = i.distinct_readers;
      };
    },
    refl,
  )

  pub wake_writer_lem :
      (w : ℕ) (q : List ℕ) (l : RwLock C) (th : Threads C)
      → l.writer_queue ≡ w ∷ q
      → IsQueued l th
      → is_locked l ≡ false
      → Returns
          (wake_writer w (record l { writer_queue = q }) th)
          λ (l', th'). IsValid l' th' × (l'.writer ≡ some w)
  unfolding wake_writer unblock_thread
  wake_writer_lem w q l th e i n =
      let d : IsDistinct (w ∷ q) = subst IsDistinct e i.distinct_writers in
      let waits : (u : ℕ)
          → ((w == u || contains q u) || contains l.reader_queue u)
            ≡ is_blocked_on rwlock (th.blocked u) =
        subst
          (λ x.
            (u : ℕ)
            → (contains x u || contains l.reader_queue u) ≡ is_blocked_on rwlock (th.blocked u))
          e i.waiting in
      let apart : (u : ℕ) → ((w == u || contains q u) && contains l.reader_queue u) ≡ false =
        subst (λ x. (u : ℕ) → (contains x u && contains l.reader_queue u) ≡ false) e i.apart in
      let b : is_blocked_on rwlock (th.blocked w) ≡ true = ground (arith, waits w) in
      rw (b) (
        writer_lock_lem w (record l { writer_queue = q })
          (record th { blocked = update th.blocked w none })
          record {
            waiting = λ u. ground (arith, waits u, apart u, d.0);
            apart = λ u. ground (arith, apart u);
            distinct_writers = d.1;
            distinct_readers = i.distinct_readers;
          }
          n)
