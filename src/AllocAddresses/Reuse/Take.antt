-- ===== src/AllocAddresses/Reuse/Take.antt =====
-- reuse_pool.rs: what `take_addr` takes, and when it takes nothing.
use miri.Base.{
  ℕ, ◌+◌, ◌-◌, ◌^◌, ◌%◌, ◌≤◌, ◌<◌, ◌≡◌, refl, subst, ◌∙◌, sym, Bool, true, false, not, ◌||◌, leb,
  ◌==◌, if◌then◌else◌, List, drop, get_elem?, Option, none, some, All, All-get, arith, Returns,
  Bool-cases, inl, inr, ◌⊎◌, ==_iff,
}
use miri.AllocAddresses.Reuse.{
  Entry, partition_point, remove, run_length, subpool, set_subpool, before_range, in_range, Taken,
  take_at, take_addr,
}
use miri.AllocAddresses.Reuse.Sorted.{All-remove, length-remove, remove-IsSorted}
use miri.AllocAddresses.Reuse.Laws.{
  run_length_lem, get_elem?-drop, IsAligned, IsFine, IsValid, set_subpool-IsValid, empty_range,
}

module _ {Clock : Type 0} (cross : Bool) (pool : List (List (Entry Clock)))
    (size align thread : ℕ) where
  -- what is made of the entry at `idx`
  abbrev pub taken : ℕ → Entry Clock → Taken Clock
  taken idx e = record {
    pool = set_subpool pool align (remove (subpool pool align) idx);
    addr = e.addr;
    clock = if e.thread == thread then none else some e.clock;
  }

  -- Nothing is taken without the wish to, or where no entry fits. What is taken is an entry of the
  -- pool of the size that is asked for, of the own thread unless others are allowed; it leaves the
  -- pool, and its clock is returned exactly if another thread gave it.
  abbrev pub TakeSpec : Bool → Option (Taken Clock) → Type 0
  TakeSpec wish none =
      (wish ≡ false) ⊎ All (λ o. in_range cross size thread o ≡ false) (subpool pool align)
  TakeSpec wish (some t) =
      (idx : ℕ) × (e : Entry Clock) × (get_elem? (subpool pool align) idx ≡ some e)
      × (in_range cross size thread e ≡ true)
      × (t ≡ taken idx e)
      × IsValid t.pool

  take_at_lem :
      (wish : Bool) (idx : ℕ) (e : Entry Clock)
      → IsValid pool
      → get_elem? (subpool pool align) idx ≡ some e
      → in_range cross size thread e ≡ true
      → Returns
          (take_at cross pool size align thread idx (get_elem? (subpool pool align) idx))
          (TakeSpec wish)
  unfolding take_at
  take_at_lem wish idx e v g r =
      let f = v align in
      let a : IsAligned align e = All-get (IsAligned align) (subpool pool align) idx f.aligned g in
      let fine : IsFine align (remove (subpool pool align) idx) = record {
        sorted = remove-IsSorted (subpool pool align) idx f.sorted;
        bounded = omega (arith, f.bounded, length-remove (subpool pool align) idx);
        aligned = All-remove (IsAligned align) (subpool pool align) idx f.aligned;
      } in
      let big : leb size e.size ≡ true = ground arith in
      let even : (e.addr % 2 ^ align == 0) ≡ true = (==_iff _ _).1 a in
      let own : (cross || e.thread == thread) ≡ true = ground arith in
      rw (g, big, even, own)
        (
          idx,
          e,
          g,
          r,
          refl,
          set_subpool-IsValid pool align (remove (subpool pool align) idx) v fine,
        )

  -- With a choice that stays in its range, taking from a valid pool passes every assertion. It gives
  -- nothing only for a stack, with a coin against reuse, or where no entry of the subpool has the
  -- size and a thread that is allowed. What it gives is the address of such an entry, which leaves
  -- the pool; the pool stays valid, and the entry's clock comes along exactly if another thread
  -- freed the address.
  pub take_addr_lem :
      (is_stack coin : Bool) (pick : ℕ → ℕ → ℕ)
      → ((b e : ℕ) → b < e → (b ≤ pick b e) × (pick b e < e))
      → IsValid pool
      → Returns
          (take_addr is_stack coin cross pick pool size align thread)
          (TakeSpec (not (is_stack || not coin)))
  unfolding take_addr
  take_addr_lem is_stack coin pick inside v = elim (Bool-cases (is_stack || not coin)) [
    | inl h ↦ rw h (inl refl)
    | inr h ↦ rw h (elim (Bool-cases (end == begin)) [
      | inl e ↦ rw e (inr (empty_range cross size thread l (v align).sorted (ground arith)))
      | inr e ↦
          let p = inside begin end (ground arith) in
          let i = pick begin end in
          let (o, at, ok) =
            run_length_lem (in_range cross size thread) (drop begin l) (i - begin) (omega arith) in
          let back : begin + (i - begin) ≡ i = omega arith in
          let here : get_elem? l i ≡ some o =
            subst (λ k. get_elem? l k ≡ some o) back
              (sym (get_elem?-drop l begin (i - begin)) ∙ at) in
          rw e (take_at_lem true i o v here ok)
    ])
  ]
    where
      l : List (Entry Clock)
      l = subpool pool align

      begin : ℕ
      begin = partition_point (before_range cross size thread) l

      end : ℕ
      end = begin + run_length (in_range cross size thread) (drop begin l)
