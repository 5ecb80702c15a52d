-- ===== src/Sync/Mutex/Unlock.antt =====
-- sync.rs: unlocking a mutex, and its hand-over to the thread that waits longest.
use miri.Base.{
  map_Returns, ℕ, ◌-◌, ◌<◌, ◌≡◌, refl, ap, subst, sym, ◌∙◌, Bool, true, false, not, ◌&&◌, ◌==◌,
  if◌then◌else◌, Option, none, some, is_some, List, [], ◌∷◌, ret, Returns, arith, Bool-cases, inl,
  inr, ==_iff,
}
use miri.Sync.Clocks.{Clocks}
use miri.Sync.Queue.{contains, IsDistinct}
use miri.Sync.Threads.{Threads, mutex, is_blocked_on, update, acquire_clock, release_clock}
use miri.Sync.Mutex.{Mutex, Unlocked, wake_waiter, hand_over, give_back, unlock_as, mutex_unlock}
use miri.Sync.Mutex.Invariant.{
  IsQueued, IsValid, some-ne-none, locked, mutex_lock-eq, locked-IsValid,
}

-- the thread in front
abbrev pub front : List ℕ → Option ℕ
front [] = none
front (w ∷ q) = some w

abbrev pub behind : List ℕ → List ℕ
behind [] = []
behind (w ∷ q) = q

-- whether the thread is the owner
abbrev pub owns : ℕ → Option ℕ → Bool
owns t none = false
owns t (some o) = o == t

-- the owner, number of locks and queue after `t` unlocks
abbrev pub next_owner : {C : Type 0} → ℕ → Mutex C → Option ℕ
next_owner t m =
    if owns t m.owner then (if m.lock_count == 1 then front m.queue else some t) else m.owner

abbrev pub next_queue : {C : Type 0} → ℕ → Mutex C → List ℕ
next_queue t m = if owns t m.owner && m.lock_count == 1 then behind m.queue else m.queue

module _ {C : Type 0} ⦃clocks : Clocks C⦄ where
  -- `w` has been given the clock `c`
  abbrev pub Acquired : C → Option ℕ → Threads C → Type 0
  Acquired c none th = Unit
  Acquired c (some w) th = clocks.le c (th.clock w) ≡ true

  abbrev pub HandedOver : Mutex C → Mutex C × Threads C → Type 0
  HandedOver m (m', th') =
      IsValid m' th'
      × (m'.owner ≡ front m.queue)
      × (m'.queue ≡ behind m.queue)
      × (m'.clock ≡ m.clock)
      × Acquired m.clock m'.owner th'

  wake_waiter-eq :
      (w : ℕ) (m : Mutex C) (th : Threads C)
      → is_blocked_on mutex (th.blocked w) ≡ true
      → m.owner ≡ none
      → m.lock_count ≡ 0
      → wake_waiter w m th
        ≡ ret
            (locked w m, acquire_clock m.clock w (record th { blocked = update th.blocked w none }))
  unfolding wake_waiter
  wake_waiter-eq w m th b o c =
      let free : not (is_some m.owner) ≡ true = ap (λ (x : Option ℕ). not (is_some x)) o in
      rw (b, free)
        (mutex_lock-eq w m (record th { blocked = update th.blocked w none }) (inl o) (omega arith))

  acquired : (w : ℕ) (c : C) (th : Threads C) → clocks.le c ((acquire_clock c w th).clock w) ≡ true
  unfolding acquire_clock
  acquired w c th = rw ((==_iff w w).1 refl) (clocks.join_right (th.clock w) c)

  unqueue :
      (w : ℕ) (q : List ℕ) (m : Mutex C) (th : Threads C)
      → m.queue ≡ w ∷ q
      → IsQueued m th
      → IsQueued (record m { queue = q }) (record th { blocked = update th.blocked w none })
  unqueue w q m th e i =
      let d : IsDistinct (w ∷ q) = subst IsDistinct e i.distinct in
      record {
        waiting = λ u. ground (
          arith,
          subst (λ l. contains l u ≡ is_blocked_on mutex (th.blocked u)) e (i.waiting u),
          d.0,
        );
        distinct = d.1;
      }

  hand_over-Returns :
      (m : Mutex C) (th : Threads C)
      → m.owner ≡ none
      → m.lock_count ≡ 0
      → IsQueued m th
      → Returns (hand_over m.queue m th) (HandedOver m)
  unfolding hand_over
  hand_over-Returns m th o c i = by_queue m.queue refl
    where
      by_queue : (q : List ℕ) → m.queue ≡ q → Returns (hand_over q m th) (HandedOver m)
      by_queue [] e =
          let v : IsValid m th = record {
            idle = λ p. (c, e);
            held = λ t p. absurd (some-ne-none (sym p ∙ o));
            in_queue = i;
          } in
          (
            v,
            o ∙ sym (ap front e),
            e ∙ sym (ap behind e),
            refl,
            subst (λ x. Acquired m.clock x th) (sym o) tt,
          )
      by_queue (w ∷ q) e =
          let m' = record m { queue = q } in
          let th' = record th { blocked = update th.blocked w none } in
          let waits : is_blocked_on mutex (th.blocked w) ≡ true =
            sym (i.waiting w) ∙ subst (λ l. contains l w ≡ true) (sym e) (ground arith) in
          let runs : is_blocked_on mutex (th'.blocked w) ≡ false = ground arith in
          rw (wake_waiter-eq w m' th waits o c) (
            locked-IsValid w m' th' (unqueue w q m th e i) runs,
            sym (ap front e),
            sym (ap behind e),
            refl,
            acquired w m.clock th',
          )

  abbrev pub UnlockSpec : ℕ → Mutex C → Unlocked C → Type 0
  UnlockSpec t m (r, m', th') =
      IsValid m' th'
      × (r ≡ (if owns t m.owner then some m.lock_count else none))
      × (m'.owner ≡ next_owner t m)
      × (m'.queue ≡ next_queue t m)

  -- the mutex that `t` frees, before it is handed over
  abbrev pub released : ℕ → Mutex C → Threads C → Mutex C
  released t m th = record m { owner = none; lock_count = 0; clock = th.clock t }

  pub last_lock :
      (t : ℕ) (m : Mutex C) (th : Threads C) {c : C}
      → IsQueued m th
      → m.lock_count ≡ 1
      → clocks.tick t (th.clock t) ≡ ret c
      → Returns (give_back t m th) (HandedOver (released t m th))
  unfolding give_back release_clock
  last_lock t m th {c} i one k =
      let th1 = record th { clock = update th.clock t c } in
      let h =
        hand_over-Returns (released t m th) th1 refl refl
          record { waiting = i.waiting; distinct = i.distinct } in
      rw (one, k) h

  -- with `owner` as the owner
  Unlocks : ℕ → Option ℕ → Mutex C → Threads C → Type 0
  Unlocks t owner m th = Returns (unlock_as t owner m th) (UnlockSpec t m)

  foreign_unlock :
      (t u : ℕ) (m : Mutex C) (th : Threads C)
      → IsValid m th
      → m.owner ≡ some u
      → u == t ≡ false
      → Unlocks t (some u) m th
  unfolding Unlocks unlock_as
  foreign_unlock t u m th v e n =
      let f : owns t m.owner ≡ false = rw (e) n in rw (n) (v, rw (f) refl, rw (f) refl, rw (f) refl)

  last_unlock :
      (t u : ℕ) (m : Mutex C) (th : Threads C) {c : C}
      → IsValid m th
      → m.owner ≡ some u
      → u == t ≡ true
      → m.lock_count ≡ 1
      → clocks.tick t (th.clock t) ≡ ret c
      → Unlocks t (some u) m th
  unfolding Unlocks unlock_as
  last_unlock t u m th v e y one k =
      let f : owns t m.owner ≡ true = rw (e) y in
      rw (y) (
        map_Returns (HandedOver (released t m th)) (UnlockSpec t m) _ (give_back t m th)
          (last_lock t m th v.in_queue one k)
          (λ r p. (p.0, rw (f) refl, rw (f, one) (p.1), rw (f, one) (p.2))))

  inner_unlock :
      (t u : ℕ) (m : Mutex C) (th : Threads C)
      → IsValid m th
      → m.owner ≡ some u
      → u == t ≡ true
      → 1 < m.lock_count
      → Unlocks t (some u) m th
  unfolding Unlocks unlock_as give_back
  inner_unlock t u m th v e y b =
      let f : owns t m.owner ≡ true = rw (e) y in
      let z : m.lock_count == 0 ≡ false = ground arith in
      let z1 : (m.lock_count - 1) == 0 ≡ false = ground arith in
      let n1 : m.lock_count == 1 ≡ false = ground arith in
      rw (y, z, z1)
        (
          record {
            idle = λ p. absurd (some-ne-none (sym e ∙ p));
            held = λ w p. (omega arith, (v.held w p).1);
            in_queue = record { waiting = v.in_queue.waiting; distinct = v.in_queue.distinct };
          },
          rw (f) refl,
          rw (f, n1) (rw (e) (ap some (ground arith))),
          rw (f, n1) refl,
        )

  -- Unlocking a valid mutex returns, unless the thread's clock overflows, and leaves it valid. A
  -- thread that is not the owner changes neither owner nor queue, and gets none. The owner gets the
  -- old lock count, and with its last lock the mutex goes to the thread that waits longest, which
  -- leaves the queue, or is free if no thread waits.
  pub mutex_unlock_lem :
      (t : ℕ) (m : Mutex C) (th : Threads C) {c : C}
      → IsValid m th
      → clocks.tick t (th.clock t) ≡ ret c
      → Returns (mutex_unlock t m th) (UnlockSpec t m)
  unfolding mutex_unlock Unlocks unlock_as
  mutex_unlock_lem t m th {c} v k = by_owner m.owner refl
    where
      by_owner : (o : Option ℕ) → m.owner ≡ o → Unlocks t o m th
      by_owner none e =
          let f : owns t m.owner ≡ false = rw (e) refl in (v, rw (f) refl, rw (f) refl, rw (f) refl)
      by_owner (some u) e = elim (Bool-cases (u == t)) [
        | inl y ↦ elim (Bool-cases (m.lock_count == 1)) [
          | inl one ↦ last_unlock t u m th v e y (ground arith) k
          | inr more ↦ inner_unlock t u m th v e y (ground (arith, v.held u e))
        ]
        | inr n ↦ foreign_unlock t u m th v e n
      ]
