-- ===== src/Sync/InitOnce/Complete.antt =====
-- init_once.rs: what holds of a one-time initialization and its threads between two operations, and
-- what each operation does to it.
use miri.Base.{
  ℕ, ◌≡◌, refl, sym, subst, ap, ◌∙◌, Bool, true, false, ◌||◌, ◌==◌, Option, none, some, List, [],
  ◌∷◌, ◌++◌, ret, Returns, arith, ==_iff, Bool-cases, inl, inr, weaken_Returns,
}
use miri.Sync.Clocks.{Clocks}
use miri.Sync.Queue.{contains, IsDistinct, contains-snoc, IsDistinct-snoc}
use miri.Sync.Threads.{
  Threads, BlockReason, init_once, is_enabled, is_blocked_on, update, block_thread, unblock_thread,
  acquire_clock, release_clock,
}
use miri.Sync.InitOnce.{
  InitOnceStatus, uninitialized, begun, complete, same_status, InitOnce, begin,
  init_once_enqueue_and_block, init_once_observe_completed, try_begin_at, init_once_try_begin,
  may_go_on, wake_waiter, wake_all, wake_first, init_once_complete, init_once_fail, begin_or_block,
  init_once_begin_initialize,
}

-- the threads that wait are those of `waiters`, each once
abbrev pub IsQueue : {C : Type 0} → List ℕ → Threads C → Type 0
IsQueue q th = ((t : ℕ) → contains q t ≡ is_blocked_on init_once (th.blocked t)) × IsDistinct q

-- and threads wait only while another one initializes
abbrev pub IsValid : {C : Type 0} → InitOnce C → Threads C → Type 0
IsValid o th = IsQueue o.waiters th × (same_status o.status begun ≡ false → o.waiters ≡ [])

enabled-not-waiting :
    (b : Option BlockReason) → is_enabled b ≡ true → is_blocked_on init_once b ≡ false
enabled-not-waiting none e = refl
enabled-not-waiting (some r) e = cc

module _ {C : Type 0} ⦃clocks : Clocks C⦄ where
  -- `w` has been woken from `th`, with the clock of the initialization
  abbrev woken : ℕ → C → Threads C → Threads C
  woken w c th = acquire_clock c w (record th { blocked = update th.blocked w none })

  try_completed :
      (w : ℕ) (o : InitOnce C) (th : Threads C)
      → o.status ≡ complete
      → init_once_try_begin w o th ≡ ret (some false, o, acquire_clock o.clock w th)
  unfolding init_once_try_begin try_begin_at init_once_observe_completed
  try_completed w o th s =
      let e : same_status o.status complete ≡ true = ap (λ x. same_status x complete) s in
      let goal : InitOnceStatus → Type 0 =
        λ x. try_begin_at x w o th ≡ ret (some false, o, acquire_clock o.clock w th) in
      subst goal (sym s) (rw (e) refl)

  try_uninitialized :
      (w : ℕ) (o : InitOnce C) (th : Threads C)
      → o.status ≡ uninitialized
      → init_once_try_begin w o th ≡ ret (some true, record o { status = begun }, th)
  unfolding init_once_try_begin try_begin_at begin
  try_uninitialized w o th s =
      let e : same_status o.status uninitialized ≡ true = ap (λ x. same_status x uninitialized) s in
      let goal : InitOnceStatus → Type 0 =
        λ x. try_begin_at x w o th ≡ ret (some true, record o { status = begun }, th) in
      subst goal (sym s) (rw (e) refl)

  wake_completed :
      (w : ℕ) (o : InitOnce C) (th : Threads C)
      → o.status ≡ complete
      → is_blocked_on init_once (th.blocked w) ≡ true
      → wake_waiter w o th ≡ ret (o, woken w o.clock th)
  unfolding wake_waiter unblock_thread may_go_on
  wake_completed w o th s b =
      rw (b, try_completed w o (record th { blocked = update th.blocked w none }) s) refl

  IsQueue-behind :
      (w : ℕ) (q : List ℕ) (c : C) (th : Threads C)
      → IsQueue (w ∷ q) th
      → IsQueue q (record th { blocked = update th.blocked w none })
  IsQueue-behind w q c th (i, d) = (λ u. ground (arith, i u, d.0), d.1)

  abbrev pub AllWoken : List ℕ → InitOnce C → Threads C → InitOnce C × Threads C → Type 0
  AllWoken q o th (o', th') =
      (o' ≡ o)
      × ((u : ℕ) → is_blocked_on init_once (th'.blocked u) ≡ false)
      × ((u : ℕ)
          → (contains q u || clocks.le o.clock (th.clock u)) ≡ true
          → clocks.le o.clock (th'.clock u) ≡ true)

  -- waking `w` gives it the clock, and takes no clock away
  clock_step :
      (w u : ℕ) (q : List ℕ) (c : C) (th : Threads C)
      → (contains (w ∷ q) u || clocks.le c (th.clock u)) ≡ true
      → (contains q u || clocks.le c ((woken w c th).clock u)) ≡ true
  unfolding acquire_clock
  clock_step w u q c th h = elim (Bool-cases (u == w)) [
    | inl e ↦ rw (e) (ground (arith, clocks.join_right (th.clock w) c))
    | inr n ↦ rw (n) (ground arith)
  ]

  wake_all-AllWoken :
      (q : List ℕ) (o : InitOnce C) (th : Threads C)
      → o.status ≡ complete
      → IsQueue q th
      → Returns (wake_all q o th) (AllWoken q o th)
  unfolding wake_all acquire_clock
  wake_all-AllWoken [] o th s (i, d) = (refl, λ u. sym (i u), λ u h. h)
  wake_all-AllWoken (w ∷ q) o th s (i, d) =
      let b : is_blocked_on init_once (th.blocked w) ≡ true = ground (arith, i w) in
      let th1 = woken w o.clock th in
      let e = wake_all-AllWoken q o th1 s (IsQueue-behind w q o.clock th (i, d)) in
      rw (wake_completed w o th s b) (
        weaken_Returns (AllWoken q o th1) (AllWoken (w ∷ q) o th) (wake_all q o th1) e
          (λ r p. (p.0, p.1, λ u h. p.2 u (clock_step w u q o.clock th h))))

  abbrev pub Completed : ℕ → InitOnce C → Threads C → InitOnce C × Threads C → Type 0
  Completed t o th (o', th') =
      IsValid o' th'
      × (o'.status ≡ complete)
      × ((w : ℕ) → is_blocked_on init_once (th'.blocked w) ≡ false)
      × ((w : ℕ) → contains o.waiters w ≡ true → clocks.le (th.clock t) (th'.clock w) ≡ true)

  -- Completing an initialization that has begun returns, unless the clock of the thread overflows:
  -- no thread that waits finds the initialization still going on when it is woken. It is complete and valid
  -- afterwards, no thread waits for it, and what the thread did before happens before what each
  -- thread that waited does next.
  pub init_once_complete_lem :
      (t : ℕ) (o : InitOnce C) (th : Threads C) {c : C}
      → IsValid o th
      → o.status ≡ begun
      → clocks.tick t (th.clock t) ≡ ret c
      → Returns (init_once_complete t o th) (Completed t o th)
  unfolding init_once_complete release_clock
  init_once_complete_lem t o th {c} (i, v) s k =
      let e : same_status o.status begun ≡ true = ap (λ x. same_status x begun) s in
      let o1 = record o { status = complete; waiters = []; clock = th.clock t } in
      let th1 = record th { clock = update th.clock t c } in
      rw (e, k)
        (weaken_Returns (AllWoken o.waiters o1 th1) (Completed t o th) (wake_all o.waiters o1 th1)
          (wake_all-AllWoken o.waiters o1 th1 refl i)
          (λ r p.
            let ws : r.0.waiters ≡ [] = ap (λ (x : InitOnce C). x.waiters) (p.0) in
            (
              (subst (λ q. IsQueue q (r.1)) (sym ws) (λ u. sym (p.1 u), tt), λ n. ws),
              ap (λ (x : InitOnce C). x.status) (p.0),
              p.1,
              λ w h. p.2 w (ground arith),
            )))

  abbrev pub Restarted : List ℕ → InitOnce C × Threads C → Type 0
  Restarted [] (o', th') = IsValid o' th' × (o'.status ≡ uninitialized)
  Restarted (w ∷ q) (o', th') =
      IsValid o' th' × (o'.status ≡ begun) × (o'.waiters ≡ q) × (is_enabled (th'.blocked w) ≡ true)

  wake_first-Restarted :
      (q : List ℕ) (o : InitOnce C) (th : Threads C)
      → o.waiters ≡ q
      → o.status ≡ uninitialized
      → IsQueue q th
      → Returns (wake_first q o th) (Restarted q)
  unfolding wake_first wake_waiter unblock_thread may_go_on
  wake_first-Restarted [] o th e s i = ((subst (λ q. IsQueue q th) (sym e) i, λ n. e), s)
  wake_first-Restarted (w ∷ q) o th e s i =
      let b : is_blocked_on init_once (th.blocked w) ≡ true = ground (arith, i.0 w) in
      let o1 = record o { waiters = q } in
      let th1 = record th { blocked = update th.blocked w none } in
      rw (b, try_uninitialized w o1 th1 s)
        ((IsQueue-behind w q o.clock th i, λ n. cc), refl, refl, ground arith)

  -- Failing an initialization that has begun returns, unless the clock of the thread overflows, and
  -- leaves it valid. If no thread waits it is uninitialized afterwards; otherwise the thread that waits
  -- longest leaves the queue, runs, and begins the initialization again.
  pub init_once_fail_lem :
      (t : ℕ) (o : InitOnce C) (th : Threads C) {c : C}
      → IsValid o th
      → o.status ≡ begun
      → clocks.tick t (th.clock t) ≡ ret c
      → Returns (init_once_fail t o th) (Restarted o.waiters)
  unfolding init_once_fail release_clock
  init_once_fail_lem t o th {c} (i, v) s k =
      let e : same_status o.status begun ≡ true = ap (λ x. same_status x begun) s in
      let o1 = record o { status = uninitialized; clock = th.clock t } in
      let th1 = record th { clock = update th.clock t c } in
      rw (e, k) (wake_first-Restarted o.waiters o1 th1 refl refl i)

  try_begun :
      (t : ℕ) (o : InitOnce C) (th : Threads C)
      → o.status ≡ begun
      → init_once_try_begin t o th ≡ ret (none, o, th)
  unfolding init_once_try_begin try_begin_at
  try_begun t o th s = rw (s) refl

  abbrev blocked : ℕ → Threads C → Threads C
  blocked t th = record th { blocked = update th.blocked t (some init_once) }

  IsQueue-snoc :
      (t : ℕ) (q : List ℕ) (th : Threads C)
      → IsQueue q th
      → is_enabled (th.blocked t) ≡ true
      → IsQueue (q ++ t ∷ []) (blocked t th)
  IsQueue-snoc t q th (i, d) e = (
    λ u. rw (contains-snoc q t u) (ground (arith, i u)),
    IsDistinct-snoc q t d (i t ∙ enabled-not-waiting (th.blocked t) e),
  )

  abbrev pub BeginSpec :
      InitOnceStatus → ℕ → InitOnce C → Threads C → Option Bool × InitOnce C × Threads C → Type 0
  BeginSpec uninitialized t o th (r, o', th') = (r ≡ some true) × (o'.status ≡ begun)
  BeginSpec begun t o th (r, o', th') =
      (r ≡ none) × (o'.status ≡ begun) × (is_enabled (th'.blocked t) ≡ false)
  BeginSpec complete t o th (r, o', th') =
      (r ≡ some false) × (o' ≡ o) × (clocks.le o.clock (th'.clock t) ≡ true)

  abbrev pub KeepsValid : ℕ → InitOnce C → Threads C → Option Bool × InitOnce C × Threads C → Type 0
  KeepsValid t o th (r, o', th') = IsValid o' th' × BeginSpec o.status t o th (r, o', th')

  begin_initialize_at :
      (s : InitOnceStatus) (t : ℕ) (o : InitOnce C) (th : Threads C)
      → IsValid o th
      → is_enabled (th.blocked t) ≡ true
      → o.status ≡ s
      → Returns
          (init_once_begin_initialize t o th)
          λ (r, o', th'). IsValid o' th' × BeginSpec s t o th (r, o', th')
  unfolding init_once_begin_initialize begin_or_block init_once_enqueue_and_block block_thread
  begin_initialize_at uninitialized t o th (i, v) e s =
      rw (try_uninitialized t o th s) ((i, λ n. cc), (refl, refl))
  begin_initialize_at complete t o th (i, v) e s =
      rw (try_completed t o th s)
        ((i, v), (refl, refl, rw ((==_iff t t).1 refl) (clocks.join_right (th.clock t) o.clock)))
  begin_initialize_at begun t o th (i, v) e s =
      let c : same_status o.status complete ≡ false = ap (λ x. same_status x complete) s in
      let b : same_status o.status begun ≡ true = ap (λ x. same_status x begun) s in
      rw (try_begun t o th s, c, e)
        ((IsQueue-snoc t o.waiters th i e, λ n. cc), (refl, s, ground arith))

  -- `InitOnceBeginInitialize` returns in an enabled thread, and leaves a valid initialization valid. One
  -- that has not begun is begun by the thread; a thread that finds it begun blocks; and one that finds
  -- it complete goes on, with the clock of the completion.
  pub init_once_begin_initialize_lem :
      (t : ℕ) (o : InitOnce C) (th : Threads C)
      → IsValid o th
      → is_enabled (th.blocked t) ≡ true
      → Returns (init_once_begin_initialize t o th) (KeepsValid t o th)
  init_once_begin_initialize_lem t o th v e = begin_initialize_at o.status t o th v e refl
