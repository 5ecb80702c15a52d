-- ===== src/AllocAddresses/Reuse/Laws.antt =====
-- reuse_pool.rs: what `add_addr` and `take_addr` do to the pool, and what is taken.
use native.Mathlib.Nat.{zero-add, suc-add}
use miri.Base.{
  ℕ, zero, suc, ◌+◌, ◌^◌, ◌%◌, ◌≤◌, ◌<◌, ◌≡◌, ==_iff, subst, refl, Bool, true, false, not, ◌||◌,
  ◌==◌, if◌then◌else◌, List, [], ◌∷◌, length, drop, get_elem?, some, All, arith, Bool-cases, inl,
  inr,
}
use miri.AllocAddresses.Reuse.{
  Entry, partition_point, run_length, add_to_subpool, max_pool_size, subpool, set_subpool, add_addr,
  before_range, in_range,
}
use miri.AllocAddresses.Reuse.Sorted.{IsSorted, KeyLe, All-add_to_subpool, add_to_subpool-IsSorted}

module _ {ℓ} {A : Type ℓ} (test : A → Bool) where
  -- an index within the run that starts at `begin` holds an entry that passes the test
  pub run_length_lem :
      (l : List A) (k : ℕ)
      → k < run_length test l
      → (a : A) × (get_elem? l k ≡ some a) × (test a ≡ true)
  unfolding run_length
  run_length_lem [] k h = elim h [ ]
  run_length_lem (a ∷ r) zero h = elim (Bool-cases (test a)) [
    | inl e ↦ (a, refl, e)
    | inr e ↦ absurd (ground arith)
  ]
  run_length_lem (a ∷ r) (suc k) h = elim (Bool-cases (test a)) [
    | inl e ↦ run_length_lem r k (ground arith)
    | inr e ↦ absurd (ground arith)
  ]

pub get_elem?-drop {ℓ} :
    {A : Type ℓ} (l : List A) (n k : ℕ) → get_elem? (drop n l) k ≡ get_elem? l (n + k)
get_elem?-drop l zero k = rw zero-add
get_elem?-drop [] (suc n) k = refl
get_elem?-drop (a ∷ r) (suc n) k = rw suc-add (get_elem?-drop r n k)

module _ {Clock : Type 0} where
  subpool-set_subpool :
      (ps : List (List (Entry Clock))) (i j : ℕ) (q : List (Entry Clock))
      → subpool (set_subpool ps i q) j ≡ (if i == j then q else subpool ps j)
  unfolding subpool set_subpool
  subpool-set_subpool [] zero zero q = refl
  subpool-set_subpool [] zero (suc j) q = ground arith
  subpool-set_subpool [] (suc i) zero q = ground arith
  subpool-set_subpool [] (suc i) (suc j) q = ground (arith, subpool-set_subpool [] i j q)
  subpool-set_subpool (p ∷ ps) zero zero q = refl
  subpool-set_subpool (p ∷ ps) zero (suc j) q = ground arith
  subpool-set_subpool (p ∷ ps) (suc i) zero q = ground arith
  subpool-set_subpool (p ∷ ps) (suc i) (suc j) q = ground (arith, subpool-set_subpool ps i j q)

  abbrev pub IsAligned : ℕ → Entry Clock → Type 0
  IsAligned i e = e.addr % 2 ^ i ≡ 0

  -- the subpool of index `i`
  pub record IsFine (i : ℕ) (l : List (Entry Clock)) : Type 0 where
    pub sorted : IsSorted l
    pub bounded : length l ≤ max_pool_size
    pub aligned : All (IsAligned i) l

  abbrev pub IsValid : List (List (Entry Clock)) → Type 0
  IsValid pool = (i : ℕ) → IsFine i (subpool pool i)

  pub nil-IsValid : IsValid []
  unfolding subpool
  nil-IsValid i = record { sorted = tt; bounded = omega arith; aligned = tt }

  pub set_subpool-IsValid :
      (pool : List (List (Entry Clock))) (i : ℕ) (q : List (Entry Clock))
      → IsValid pool
      → IsFine i q
      → IsValid (set_subpool pool i q)
  set_subpool-IsValid pool i q v f j = elim (Bool-cases (i == j)) [
    | inl e ↦ rw (subpool-set_subpool pool i j q, e) (subst (λ k. IsFine k q) ((==_iff i j).0 e) f)
    | inr e ↦ rw (subpool-set_subpool pool i j q, e) (v j)
  ]

  -- Adding an entry whose address fits the alignment keeps every subpool sorted, within its bound and
  -- aligned.
  pub add_addr-IsValid :
      (is_stack coin : Bool) (pool : List (List (Entry Clock))) (align : ℕ) (e : Entry Clock)
      → IsAligned align e
      → IsValid pool
      → IsValid (add_addr is_stack coin pool align e)
  unfolding add_addr
  add_addr-IsValid is_stack coin pool align e a v = elim (Bool-cases (is_stack || not coin)) [
    | inl h ↦ rw h v
    | inr h ↦ rw h (
        set_subpool-IsValid pool align (add_to_subpool (subpool pool align) e) v (
          let f = v align in
          let (s, b) = add_to_subpool-IsSorted e (subpool pool align) f.sorted f.bounded in
          record {
            sorted = s;
            bounded = b;
            aligned = All-add_to_subpool (IsAligned align) (subpool pool align) e a f.aligned;
          }))
  ]

  module _ (cross : Bool) (size thread : ℕ) where
    -- an entry after one that is neither before the range nor in it is not in it
    beyond :
        (o f : Entry Clock)
        → before_range cross size thread o ≡ false
        → in_range cross size thread o ≡ false
        → KeyLe o f
        → in_range cross size thread f ≡ false
    beyond o f b i k = ground arith

    All-beyond :
        (o : Entry Clock) (l : List (Entry Clock))
        → before_range cross size thread o ≡ false
        → in_range cross size thread o ≡ false
        → All (KeyLe o) l
        → All (λ f. in_range cross size thread f ≡ false) l
    All-beyond o [] b i k = tt
    All-beyond o (f ∷ l) b i k = (beyond o f b i k.0, All-beyond o l b i k.1)

    before-not-in :
        (o : Entry Clock)
        → before_range cross size thread o ≡ true
        → in_range cross size thread o ≡ false
    before-not-in o h = ground arith

    pub empty_range :
        (l : List (Entry Clock))
        → IsSorted l
        → run_length
            (in_range cross size thread)
            (drop (partition_point (before_range cross size thread) l) l)
          ≡ 0
        → All (λ f. in_range cross size thread f ≡ false) l
    unfolding run_length partition_point
    empty_range [] s h = tt
    empty_range (o ∷ l) s h = elim (Bool-cases (before_range cross size thread o)) [
      | inl e ↦ (before-not-in o e, empty_range l s.1 (rw e at h))
      | inr e ↦ elim (Bool-cases (in_range cross size thread o)) [
        | inl i ↦ absurd (ground arith)
        | inr i ↦ (i, All-beyond o l e i s.0)
      ]
    ]
