-- ===== src/Sync/Mutex/Steps.antt =====
-- sync.rs: the runs of threads that lock, wait for and unlock one mutex.
use miri.Base.{
  map_Returns, ℕ, ◌+◌, ◌<◌, ◌≡◌, ◌≢◌, refl, ap, subst, sym, ◌∙◌, true, Option, none, some, List, [],
  ◌∷◌, ret, Returns, ret-injective, inl, inr, ◌⊎◌, ==_iff,
}
use miri.Sync.Clocks.{Clocks}
use miri.Sync.Threads.{Threads, is_enabled}
use miri.Sync.Mutex.{
  Mutex, Unlocked, usize_mod, give_back, mutex_lock, unlock_as, mutex_unlock,
  mutex_enqueue_and_block,
}
use miri.Sync.Mutex.Invariant.{
  IsValid, MayLock, enabled-not-waiting, mutex_lock-eq, locked-IsValid, enqueue-IsValid,
}
use miri.Sync.Mutex.Unlock.{
  UnlockSpec, HandedOver, Acquired, front, released, last_lock, mutex_unlock_lem,
}

-- `Mutex::default()`, and threads that all run
abbrev pub unlocked : {C : Type 0} → C → Mutex C
unlocked c = record { owner = none; lock_count = 0; queue = []; clock = c }

abbrev pub running : {C : Type 0} → (ℕ → C) → Threads C
running clock = record { blocked = λ _. none; clock = clock }

module _ {C : Type 0} ⦃clocks : Clocks C⦄ where
  -- A step of an enabled thread: it locks a mutex that is free or its own, waits for one that another
  -- thread owns, or unlocks. No counter overflows.
  pub data Step (m : Mutex C) (th : Threads C) (m' : Mutex C) (th' : Threads C) : Type 0 where
    lock :
        (t : ℕ)
        → is_enabled (th.blocked t) ≡ true
        → (m.owner ≡ none) ⊎ (m.owner ≡ some t)
        → m.lock_count + 1 < usize_mod
        → mutex_lock t m th ≡ ret (m', th')
        → Step m th m' th'
    wait :
        (t o : ℕ)
        → is_enabled (th.blocked t) ≡ true
        → m.owner ≡ some o
        → o ≢ t
        → mutex_enqueue_and_block t m th ≡ ret (m', th')
        → Step m th m' th'
    unlock :
        (t : ℕ) (r : Option ℕ) (c : C)
        → is_enabled (th.blocked t) ≡ true
        → clocks.tick t (th.clock t) ≡ ret c
        → mutex_unlock t m th ≡ ret (r, m', th')
        → Step m th m' th'

  pub data Reach (c : C) (clock : ℕ → C) : Mutex C → Threads C → Type 0 where
    start : Reach c clock (unlocked c) (running clock)
    after :
        {m m' : Mutex C} {th th' : Threads C}
        → Reach c clock m th
        → Step m th m' th'
        → Reach c clock m' th'

  may_lock :
      (t : ℕ) (m : Mutex C) (th : Threads C)
      → IsValid m th
      → (m.owner ≡ none) ⊎ (m.owner ≡ some t)
      → MayLock t m
  may_lock t m th v (inl p) = inl p
  may_lock t m th v (inr p) = inr (p, (v.held t p).0)

  Step-IsValid :
      {m m' : Mutex C} {th th' : Threads C} → IsValid m th → Step m th m' th' → IsValid m' th'
  Step-IsValid {m} {m'} {th} {th'} v (lock t e o b q) =
      let p = ret-injective (sym (mutex_lock-eq t m th (may_lock t m th v o) b) ∙ q) in
      subst (λ x. IsValid (x.0) (x.1)) p
        (locked-IsValid t m th v.in_queue (enabled-not-waiting (th.blocked t) e))
  Step-IsValid {m} {m'} {th} {th'} v (wait t o e own ne q) =
      subst (λ x. Returns x λ (m1, th1). IsValid m1 th1) q (enqueue-IsValid t o m th v own ne e)
  Step-IsValid {m} {m'} {th} {th'} v (unlock t r c e k q) =
      (subst (λ x. Returns x (UnlockSpec t m)) q (mutex_unlock_lem t m th v k)).0

  -- In every state that threads reach from a free mutex by locking it, waiting for it and unlocking
  -- it, the mutex is valid.
  pub reachable-IsValid :
      (c : C) (clock : ℕ → C) {m : Mutex C} {th : Threads C} → Reach c clock m th → IsValid m th
  reachable-IsValid c clock start = record {
    idle = λ p. (refl, refl);
    held = λ t p. cc;
    in_queue = record { waiting = λ t. refl; distinct = tt };
  }
  reachable-IsValid c clock (after r s) = Step-IsValid (reachable-IsValid c clock r) s

  abbrev pub Happens : ℕ → ℕ → Threads C → Unlocked C → Type 0
  Happens t w th (r, m', th') = (m'.owner ≡ some w) × (clocks.le (th.clock t) (th'.clock w) ≡ true)

  -- When the owner of a valid mutex gives back its last lock and `w` waits longest, `w` owns the mutex
  -- afterwards, and what the owner did before happens before what `w` does next: its clock was at most
  -- the one that `w` has now.
  pub mutex_unlock-Happens :
      (t w : ℕ) (q : List ℕ) (m : Mutex C) (th : Threads C) {c : C}
      → IsValid m th
      → m.owner ≡ some t
      → m.lock_count ≡ 1
      → m.queue ≡ w ∷ q
      → clocks.tick t (th.clock t) ≡ ret c
      → Returns (mutex_unlock t m th) (Happens t w th)
  unfolding mutex_unlock unlock_as
  mutex_unlock-Happens t w q m th v own one e k =
      let self : Returns (unlock_as t (some t) m th) (Happens t w th) = rw ((==_iff t t).1 refl) (
        map_Returns (HandedOver (released t m th)) (Happens t w th) _ (give_back t m th)
          (last_lock t m th v.in_queue one k)
          (λ r p.
            let o = p.1 ∙ ap front e in (o, subst (λ x. Acquired (th.clock t) x (r.1)) o (p.4)))) in
      subst (λ o. Returns (unlock_as t o m th) (Happens t w th)) (sym own) self
