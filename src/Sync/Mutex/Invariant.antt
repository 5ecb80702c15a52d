-- ===== src/Sync/Mutex/Invariant.antt =====
-- sync.rs: what holds of a mutex and its threads between two operations, locking the mutex
-- and waiting for it.
use mathlib.Core.Option.{some-injective}
use miri.Base.{
  subst, sym, ◌∙◌, ℕ, ◌+◌, ◌<◌, ◌≡◌, ◌≢◌, refl, true, false, Option, none, some, [], ◌∷◌, ◌++◌, ret,
  Returns, arith, ◌⊎◌, lt→ltb,
}
use miri.Sync.Clocks.{Clocks}
use miri.Sync.Queue.{contains, IsDistinct, contains-snoc, IsDistinct-snoc}
use miri.Sync.Threads.{
  Threads, BlockReason, mutex, is_enabled, is_blocked_on, update, acquire_clock,
}
use miri.Sync.Mutex.{Mutex, usize_mod, claim, mutex_lock, mutex_enqueue_and_block}

-- The threads that wait are exactly those of the queue, each once.
pub record IsQueued {C : Type 0} (m : Mutex C) (th : Threads C) : Type 0 where
  pub waiting : (t : ℕ) → contains m.queue t ≡ is_blocked_on mutex (th.blocked t)
  pub distinct : IsDistinct m.queue

-- An unlocked mutex has no lock count and no thread waiting; the owner of a locked one has at least
-- one lock and does not wait.
pub record IsValid {C : Type 0} (m : Mutex C) (th : Threads C) : Type 0 where
  pub idle : m.owner ≡ none → (m.lock_count ≡ 0) × (m.queue ≡ [])
  pub held :
      (t : ℕ) → m.owner ≡ some t → (0 < m.lock_count) × (is_blocked_on mutex (th.blocked t) ≡ false)
  pub in_queue : IsQueued m th

pub some-ne-none : {A : Type 0} {a : A} → ¬ (some a ≡ none)
some-ne-none p = cc

pub enabled-not-waiting :
    (b : Option BlockReason) → is_enabled b ≡ true → is_blocked_on mutex b ≡ false
enabled-not-waiting none e = refl
enabled-not-waiting (some r) e = cc

-- the thread may have the lock, or have it once more
abbrev pub MayLock : {C : Type 0} → ℕ → Mutex C → Type 0
MayLock t m = (m.owner ≡ none) ⊎ ((m.owner ≡ some t) × (0 < m.lock_count))

claim-eq :
    (t : ℕ) (owner : Option ℕ) (count : ℕ)
    → (owner ≡ none) ⊎ ((owner ≡ some t) × (0 < count))
    → claim t owner count ≡ ret (some t)
unfolding claim
claim-eq t none count o = refl
claim-eq t (some u) count o = ground (arith, some-injective u t)

module _ {C : Type 0} ⦃clocks : Clocks C⦄ where
  -- the mutex with one more lock of `t`
  abbrev pub locked : ℕ → Mutex C → Mutex C
  locked t m = record m { owner = some t; lock_count = m.lock_count + 1 }

  pub mutex_lock-eq :
      (t : ℕ) (m : Mutex C) (th : Threads C)
      → MayLock t m
      → m.lock_count + 1 < usize_mod
      → mutex_lock t m th ≡ ret (locked t m, acquire_clock m.clock t th)
  unfolding mutex_lock
  mutex_lock-eq t m th o b =
      rw (claim-eq t m.owner m.lock_count o, lt→ltb (m.lock_count + 1) usize_mod b)

  pub locked-IsValid :
      (t : ℕ) (m : Mutex C) (th : Threads C)
      → IsQueued m th
      → is_blocked_on mutex (th.blocked t) ≡ false
      → IsValid (locked t m) (acquire_clock m.clock t th)
  unfolding acquire_clock
  locked-IsValid t m th v e = record {
    idle = λ p. absurd (some-ne-none p);
    held = λ u p. (
      omega arith,
      subst (λ x. is_blocked_on mutex (th.blocked x) ≡ false) (some-injective t u p) e,
    );
    in_queue = record { waiting = v.waiting; distinct = v.distinct };
  }

  -- the mutex with a waiter more
  abbrev pub queued : ℕ → Mutex C → Mutex C
  queued t m = record m { queue = m.queue ++ t ∷ [] }

  abbrev pub blocked_on : BlockReason → ℕ → Threads C → Threads C
  blocked_on reason t th = record th { blocked = update th.blocked t (some reason) }

  pub enqueue-eq :
      (t : ℕ) (m : Mutex C) (th : Threads C) {o : ℕ}
      → m.owner ≡ some o
      → is_enabled (th.blocked t) ≡ true
      → mutex_enqueue_and_block t m th ≡ ret (queued t m, blocked_on mutex t th)
  unfolding mutex_enqueue_and_block
  enqueue-eq t m th o e = rw (o, e)

  -- A thread that does not own a locked mutex can be queued: the operation returns, and the mutex
  -- stays valid.
  pub enqueue-IsValid :
      (t o : ℕ) (m : Mutex C) (th : Threads C)
      → IsValid m th
      → m.owner ≡ some o
      → o ≢ t
      → is_enabled (th.blocked t) ≡ true
      → Returns (mutex_enqueue_and_block t m th) λ (m', th'). IsValid m' th'
  enqueue-IsValid t o m th v own ne e = rw (enqueue-eq t m th own e) record {
    idle = λ p. absurd (some-ne-none (sym own ∙ p));
    held = λ u p. ground (arith, v.held u p, some-injective o u (sym own ∙ p), ne);
    in_queue = record {
      waiting = λ u. rw (contains-snoc m.queue t u) (ground (arith, v.in_queue.waiting u));
      distinct =
          IsDistinct-snoc m.queue t v.in_queue.distinct
            (v.in_queue.waiting t ∙ enabled-not-waiting (th.blocked t) e);
    };
  }
