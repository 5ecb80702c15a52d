-- ===== src/Sync/RwLock/Readers.antt =====
-- sync.rs: the table of readers of a read-write lock, locking by readers, and waking all that wait.
use miri.Base.{
  ℕ, ◌+◌, ◌<◌, ◌≡◌, refl, sym, subst, ap, ◌∙◌, true, false, ◌==◌, if◌then◌else◌, Option, none, some,
  is_some, List, [], ◌∷◌, All, ret, Returns, arith, ==_iff, Bool-cases, inl, inr, lt→ltb,
}
use mathlib.Core.Option.{some-injective}
use miri.Sync.Clocks.{Clocks}
use miri.Sync.Queue.{contains, IsDistinct}
use miri.Sync.Threads.{Threads, rwlock, is_blocked_on, update, unblock_thread, acquire_clock}
use miri.Sync.Mutex.{usize_mod}
use miri.Sync.RwLock.{
  RwLock, lookup, removed, stored, count_of, count_reader, is_write_locked, rwlock_reader_lock,
  wake_reader, wake_readers,
}
use miri.Sync.RwLock.Exclusion.{true-ne-false, IsValid}

-- each reader has at least one lock
abbrev pub IsCounted : List (ℕ × ℕ) → Type 0
IsCounted readers = All (λ (r : ℕ × ℕ). 0 < r.1) readers

pub removed-IsCounted :
    (t : ℕ) (readers : List (ℕ × ℕ)) → IsCounted readers → IsCounted (removed t readers)
removed-IsCounted t [] c = tt
removed-IsCounted t ((u, count) ∷ readers) c = elim (Bool-cases (u == t)) [
  | inl e ↦ rw (e) (removed-IsCounted t readers (c.1))
  | inr e ↦ rw (e) (c.0, removed-IsCounted t readers (c.1))
]

pub lookup-removed :
    (t u : ℕ) (readers : List (ℕ × ℕ))
    → u == t ≡ false
    → lookup t (removed u readers) ≡ lookup t readers
lookup-removed t u [] n = refl
lookup-removed t u ((v, count) ∷ readers) n = ground (arith, lookup-removed t u readers n)

pub lookup-IsCounted :
    (t : ℕ) (readers : List (ℕ × ℕ)) {count : ℕ}
    → IsCounted readers
    → lookup t readers ≡ some count
    → 0 < count
lookup-IsCounted t [] c e = cc
lookup-IsCounted t ((u, n) ∷ readers) {count} c e = elim (Bool-cases (u == t)) [
  | inl q ↦
      let found = ap (λ b. if b then some n else lookup t readers) q in
      subst (λ x. 0 < x) (some-injective n count (sym found ∙ e)) (c.0)
  | inr q ↦
      let other = ap (λ b. if b then some n else lookup t readers) q in
      lookup-IsCounted t readers (c.1) (sym other ∙ e)
]

module _ {C : Type 0} ⦃clocks : Clocks C⦄ where
  -- A lock without a writer can be locked by a reader whose count does not overflow: the operation
  -- returns and leaves the lock valid, and only the count of that reader changes.
  pub reader_lock_lem :
      (t : ℕ) (l : RwLock C) (th : Threads C)
      → IsValid l th
      → is_write_locked l ≡ false
      → count_of (lookup t l.readers) + 1 < usize_mod
      → Returns (rwlock_reader_lock t l th) λ (l', th').
        IsValid l' th' × (lookup t l'.readers ≡ some (count_of (lookup t l.readers) + 1))
  unfolding rwlock_reader_lock count_reader acquire_clock
  reader_lock_lem t l th v n b =
      rw (n, lt→ltb (count_of (lookup t l.readers) + 1) usize_mod b)
        (
          record {
            exclusive = λ p. absurd (true-ne-false (sym p ∙ n));
            counted = (omega arith, removed-IsCounted t l.readers v.counted);
            writers_wait = λ f. absurd (ground arith);
            readers_wait = v.readers_wait;
            in_queue = record {
              waiting = v.in_queue.waiting;
              apart = v.in_queue.apart;
              distinct_writers = v.in_queue.distinct_writers;
              distinct_readers = v.in_queue.distinct_readers;
            };
          },
          rw ((==_iff t t).1 refl) refl,
        )

  wake_reader-eq :
      (r : ℕ) (l : RwLock C) (th : Threads C)
      → is_blocked_on rwlock (th.blocked r) ≡ true
      → is_write_locked l ≡ false
      → lookup r l.readers ≡ none
      → wake_reader r l th
        ≡ ret (
          record l { readers = stored r 1 l.readers },
          acquire_clock l.clock_unlocked r (record th { blocked = update th.blocked r none }),
        )
  unfolding wake_reader unblock_thread rwlock_reader_lock count_reader
  wake_reader-eq r l th b n f = rw (b, n, f) refl

  -- waking readers that hold no lock yet, one after the other
  pub wake_readers_lem :
      (q : List ℕ) (l : RwLock C) (th : Threads C)
      → l.writer ≡ none
      → l.writer_queue ≡ []
      → l.reader_queue ≡ []
      → IsCounted l.readers
      → ((t : ℕ) → contains q t ≡ is_blocked_on rwlock (th.blocked t))
      → IsDistinct q
      → ((t : ℕ) → contains q t ≡ true → lookup t l.readers ≡ none)
      → Returns (wake_readers q l th) λ (l', th'). IsValid l' th' × (l'.writer ≡ none)
  unfolding wake_readers acquire_clock
  wake_readers_lem [] l th w wq rq c i d f =
      let none_writes : (t : ℕ) → contains l.writer_queue t ≡ false =
        λ t. ap (λ x. contains x t) wq in
      let none_reads : (t : ℕ) → contains l.reader_queue t ≡ false =
        λ t. ap (λ x. contains x t) rq in
      (
        record {
          exclusive = λ p. absurd (true-ne-false (sym p ∙ ap (λ (x : Option ℕ). is_some x) w));
          counted = c;
          writers_wait = λ p. wq;
          readers_wait = λ p. rq;
          in_queue = record {
            waiting = λ t. ground (arith, none_writes t, none_reads t, i t);
            apart = λ t. ground (arith, none_writes t);
            distinct_writers = subst IsDistinct (sym wq) tt;
            distinct_readers = subst IsDistinct (sym rq) tt;
          };
        },
        w,
      )
  wake_readers_lem (r ∷ q) l th w wq rq c i d f =
      let b : is_blocked_on rwlock (th.blocked r) ≡ true = ground (arith, i r) in
      let n = ap (λ (x : Option ℕ). is_some x) w in
      let l' = record l { readers = stored r 1 l.readers } in
      let th' =
        acquire_clock l.clock_unlocked r (record th { blocked = update th.blocked r none }) in
      rw (wake_reader-eq r l th b n (f r (ground arith))) (
        wake_readers_lem q l' th' w wq rq (omega arith, removed-IsCounted r l.readers c)
          (λ t. ground (arith, i t, d.0)) (d.1)
          (λ t h.
            let other : r == t ≡ false = ground (arith, h, d.0) in
            rw (other) (lookup-removed t r l.readers other ∙ f t (ground (arith, h)))))
