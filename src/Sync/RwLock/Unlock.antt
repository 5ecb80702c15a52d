-- ===== src/Sync/RwLock/Unlock.antt =====
-- sync.rs: unlocking a read-write lock, and to whom it goes.
use miri.Base.{
  map_Returns, ℕ, ◌-◌, ◌<◌, ◌≡◌, refl, sym, subst, ap, ◌∙◌, Bool, true, false, not, ◌||◌, ◌==◌,
  if◌then◌else◌, Option, none, some, is_some, List, [], ◌∷◌, ret, Returns, arith, Bool-cases, inl,
  inr, weaken_Returns, lt→ltb,
}
use miri.Sync.Clocks.{Clocks}
use miri.Sync.Queue.{contains}
use miri.Sync.Threads.{Threads, update, release_clock}
use miri.Sync.Mutex.Unlock.{front, owns}
use miri.Sync.RwLock.{
  RwLock, is_empty, lookup, removed, stored, uncount_reader, is_locked, to_writer,
  to_writer_or_readers, reader_unlock_as, rwlock_reader_unlock, writer_unlock_as,
  rwlock_writer_unlock,
}
use miri.Sync.RwLock.Exclusion.{true-ne-false, no_readers, IsQueued, IsValid, wake_writer_lem}
use miri.Sync.RwLock.Readers.{IsCounted, removed-IsCounted, lookup-IsCounted, wake_readers_lem}

-- a lock that nobody holds is valid with `writer`, the first of the queue, as its writer
abbrev pub GoesTo : {C : Type 0} → Option ℕ → RwLock C × Threads C → Type 0
GoesTo writer (l, th) = IsValid l th × (l.writer ≡ writer)

-- the table after a reader with this count has unlocked once
abbrev pub left : ℕ → ℕ → List (ℕ × ℕ) → List (ℕ × ℕ)
left t count readers = if count - 1 == 0 then removed t readers else stored t (count - 1) readers

left-IsCounted :
    (t count : ℕ) (readers : List (ℕ × ℕ))
    → 0 < count
    → IsCounted readers
    → IsCounted (left t count readers)
left-IsCounted t count readers b c = elim (Bool-cases (count - 1 == 0)) [
  | inl e ↦ rw (e) (removed-IsCounted t readers c)
  | inr n ↦ rw (n) (ground arith, removed-IsCounted t readers c)
]

none-ne-some : {A : Type 0} {a : A} → ¬ (none ≡ some a)
none-ne-some p = cc

module _ {C : Type 0} ⦃clocks : Clocks C⦄ where
  to_writer_lem :
      (q : List ℕ) (l : RwLock C) (th : Threads C)
      → l.writer_queue ≡ q
      → l.reader_queue ≡ []
      → IsQueued l th
      → is_locked l ≡ false
      → l.writer ≡ none
      → Returns (to_writer q l th) (GoesTo (front q))
  unfolding to_writer
  to_writer_lem [] l th e rq i n w = (
    record {
      exclusive = λ p. no_readers l n;
      counted = subst IsCounted (sym (no_readers l n)) tt;
      writers_wait = λ p. e;
      readers_wait = λ p. rq;
      in_queue = i;
    },
    w,
  )
  to_writer_lem (w ∷ q) l th e rq i n o = wake_writer_lem w q l th e i n

  to_writer_or_readers_lem :
      (q : List ℕ) (l : RwLock C) (th : Threads C)
      → l.writer_queue ≡ q
      → l.writer ≡ none
      → l.readers ≡ []
      → IsQueued l th
      → Returns (to_writer_or_readers q l th) (GoesTo (front q))
  unfolding to_writer_or_readers
  to_writer_or_readers_lem [] l th e w r i =
      let none_writes : (t : ℕ) → contains l.writer_queue t ≡ false =
        λ t. ap (λ x. contains x t) e in
      wake_readers_lem l.reader_queue (record l { reader_queue = [] }) th w e refl
        (subst IsCounted (sym r) tt) (λ t. ground (arith, none_writes t, i.waiting t))
        i.distinct_readers (λ t h. ap (λ x. lookup t x) r)
  to_writer_or_readers_lem (w ∷ q) l th e o r i = wake_writer_lem w q l th e i (
      ap (λ (x : Option ℕ). is_some x || not (is_empty l.readers)) o
      ∙ ap (λ (x : List (ℕ × ℕ)). not (is_empty x)) r)

  -- the queues do not depend on the writer, the readers and the clocks
  requeued :
      (writer : Option ℕ) (readers : List (ℕ × ℕ)) (unlocked current : C) (clock : ℕ → C)
      (l : RwLock C) (th : Threads C)
      → IsQueued l th
      → IsQueued
          (record {
            writer = writer;
            readers = readers;
            writer_queue = l.writer_queue;
            reader_queue = l.reader_queue;
            clock_unlocked = unlocked;
            clock_current_readers = current;
          })
          (record { blocked = th.blocked; clock = clock })
  requeued writer readers unlocked current clock l th i = record {
    waiting = i.waiting;
    apart = i.apart;
    distinct_writers = i.distinct_writers;
    distinct_readers = i.distinct_readers;
  }

  abbrev pub WriterUnlocked : ℕ → RwLock C → Bool × RwLock C × Threads C → Type 0
  WriterUnlocked t l (r, l', th') =
      IsValid l' th'
      × (r ≡ owns t l.writer)
      × (l'.writer ≡ (if owns t l.writer then front l.writer_queue else l.writer))

  -- Unlocking a valid lock by a writer returns, unless the clock of the thread overflows, and leaves
  -- it valid. It succeeds exactly for the writer that has the lock; then the lock goes to the writer
  -- that waits longest, if one waits, and else it has no writer.
  pub rwlock_writer_unlock_lem :
      (t : ℕ) (l : RwLock C) (th : Threads C) {c : C}
      → IsValid l th
      → clocks.tick t (th.clock t) ≡ ret c
      → Returns (rwlock_writer_unlock t l th) (WriterUnlocked t l)
  unfolding rwlock_writer_unlock writer_unlock_as release_clock
  rwlock_writer_unlock_lem t l th {c} v k = by_writer l.writer refl
    where
      by_writer :
          (o : Option ℕ) → l.writer ≡ o → Returns (writer_unlock_as t o l th) (WriterUnlocked t l)
      by_writer none e = let f : owns t l.writer ≡ false = rw (e) refl in (v, sym f, rw (f) refl)
      by_writer (some w) e = elim (Bool-cases (w == t)) [
        | inl y ↦
            let f : owns t l.writer ≡ true = rw (e) y in
            rw (y, k)
              (map_Returns (GoesTo (front l.writer_queue)) (WriterUnlocked t l) _ _
                (to_writer_or_readers_lem l.writer_queue
                  (record l { writer = none; clock_unlocked = th.clock t })
                  (record th { clock = update th.clock t c }) refl refl
                  (v.exclusive (ap (λ (x : Option ℕ). is_some x) e))
                  (requeued none l.readers _ _ _ l th v.in_queue))
                (λ r p. (p.0, sym f, rw (f) (p.1))))
        | inr n ↦ let f : owns t l.writer ≡ false = rw (e) n in rw (n) (v, sym f, rw (f) refl)
      ]

  no_writer :
      (t : ℕ) (l : RwLock C) (th : Threads C) {count : ℕ}
      → IsValid l th
      → lookup t l.readers ≡ some count
      → l.writer ≡ none
  no_writer t l th v e = by_writer l.writer refl
    where
      by_writer : (o : Option ℕ) → l.writer ≡ o → l.writer ≡ none
      by_writer none p = p
      by_writer (some w) p =
          let r = v.exclusive (ap (λ (x : Option ℕ). is_some x) p) in
          absurd (none-ne-some (sym (ap (λ x. lookup t x) r) ∙ e))

  -- the lock of a reader that has unlocked, with the others in `readers`
  after_reader :
      (readers : List (ℕ × ℕ)) (shared : C) (clock : ℕ → C) (l : RwLock C) (th : Threads C)
      → IsValid l th
      → l.writer ≡ none
      → IsCounted readers
      → let l' = record l { readers = readers; clock_current_readers = shared } in
        let th' = record th { clock = clock } in
        Returns
          (if not (is_locked l')
            then to_writer l.writer_queue (record l' { clock_unlocked = shared }) th'
            else ret (l', th'))
          λ (l1, th1). IsValid l1 th1
  after_reader readers shared clock l th v w c =
      let unwritten = ap (λ (x : Option ℕ). is_some x) w in
      let rq = v.readers_wait unwritten in
      let l' = record l {
        readers = readers;
        clock_unlocked = shared;
        clock_current_readers = shared;
      } in
      let th' = record th { clock = clock } in
      elim (Bool-cases (is_some l.writer || not (is_empty readers))) [
        | inl y ↦ rw (y) record {
          exclusive = λ p. absurd (true-ne-false (sym p ∙ unwritten));
          counted = c;
          writers_wait = λ n. absurd (true-ne-false (sym y ∙ n));
          readers_wait = λ n. rq;
          in_queue = requeued l.writer readers l.clock_unlocked shared clock l th v.in_queue;
        }
        | inr n ↦ rw (n) (
            weaken_Returns (GoesTo (front l.writer_queue)) (λ (l1, th1). IsValid l1 th1)
              (to_writer l.writer_queue l' th')
              (to_writer_lem l.writer_queue l' th' refl rq
                (requeued l.writer readers shared shared clock l th v.in_queue) n w)
              (λ r p. p.0))
      ]

  abbrev pub ReaderUnlocked : ℕ → RwLock C → Bool × RwLock C × Threads C → Type 0
  ReaderUnlocked t l (r, l', th') = IsValid l' th' × (r ≡ is_some (lookup t l.readers))

  -- Unlocking a valid lock by a reader returns, unless the clock of the thread overflows, and leaves
  -- it valid. It succeeds exactly for a thread that has a read lock.
  pub rwlock_reader_unlock_lem :
      (t : ℕ) (l : RwLock C) (th : Threads C) {c : C}
      → IsValid l th
      → clocks.tick t (th.clock t) ≡ ret c
      → Returns (rwlock_reader_unlock t l th) (ReaderUnlocked t l)
  unfolding rwlock_reader_unlock reader_unlock_as uncount_reader release_clock
  rwlock_reader_unlock_lem t l th {c} v k = by_count (lookup t l.readers) refl
    where
      by_count :
          (o : Option ℕ)
          → lookup t l.readers ≡ o
          → Returns (reader_unlock_as t o l th) (ReaderUnlocked t l)
      by_count none e = (v, sym (ap (λ (x : Option ℕ). is_some x) e))
      by_count (some count) e =
          let b = lookup-IsCounted t l.readers v.counted e in
          let shared = clocks.join l.clock_current_readers (th.clock t) in
          rw (lt→ltb 0 count b, k)
            (map_Returns (λ (l', th'). IsValid l' th') (ReaderUnlocked t l) _ _
              (after_reader (left t count l.readers) shared (update th.clock t c) l th v
                (no_writer t l th v e) (left-IsCounted t count l.readers b v.counted))
              (λ r p. (p, sym (ap (λ (x : Option ℕ). is_some x) e))))
