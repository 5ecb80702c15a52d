-- ===== src/AllocAddresses/Reuse/Sorted.antt =====
-- reuse_pool.rs: the order of a subpool by size and then thread, and its bound.
use miri.Base.{
  ℕ, zero, suc, ◌-◌, ◌≤◌, ◌≡◌, true, false, leb, List, [], ◌∷◌, length, min, Bool-cases, inl, inr,
  All, arith,
}
use miri.AllocAddresses.Reuse.{
  Entry, key_lt, partition_point, insert, set, remove, add_to_subpool, max_pool_size,
}

module _ {ℓ} {A : Type ℓ} where
  pub All-insert :
      (P : A → Type 0) (l : List A) (i : ℕ) (x : A) → P x → All P l → All P (insert l i x)
  unfolding insert
  All-insert P l zero x p h = (p, h)
  All-insert P [] (suc i) x p h = (p, tt)
  All-insert P (a ∷ r) (suc i) x p h = (h.0, All-insert P r i x p h.1)

  pub All-set : (P : A → Type 0) (l : List A) (i : ℕ) (x : A) → P x → All P l → All P (set l i x)
  unfolding set
  All-set P [] i x p h = tt
  All-set P (a ∷ r) zero x p h = (p, h.1)
  All-set P (a ∷ r) (suc i) x p h = (h.0, All-set P r i x p h.1)

  pub All-remove : (P : A → Type 0) (l : List A) (i : ℕ) → All P l → All P (remove l i)
  unfolding remove
  All-remove P [] i h = tt
  All-remove P (a ∷ r) zero h = h.1
  All-remove P (a ∷ r) (suc i) h = (h.0, All-remove P r i h.1)

  pub length-remove : (l : List A) (i : ℕ) → length (remove l i) ≤ length l
  unfolding remove
  length-remove [] i = omega arith
  length-remove (a ∷ r) zero = omega arith
  length-remove (a ∷ r) (suc i) = omega (arith, length-remove r i)

  pub length-set : (l : List A) (i : ℕ) (x : A) → length (set l i x) ≡ length l
  unfolding set
  length-set [] i x = omega arith
  length-set (a ∷ r) zero x = omega arith
  length-set (a ∷ r) (suc i) x = omega (arith, length-set r i x)

  pub length-insert : (l : List A) (i : ℕ) (x : A) → length (insert l i x) ≡ suc (length l)
  unfolding insert
  length-insert l zero x = omega arith
  length-insert [] (suc i) x = omega arith
  length-insert (a ∷ r) (suc i) x = omega (arith, length-insert r i x)

zero-min : (n : ℕ) → min 0 n ≡ 0
zero-min n = omega arith

min_last : (m : ℕ) → min m (1 - 1) ≡ 0
min_last m = omega arith

min_step : (m n : ℕ) → min (suc m) (suc (suc n) - 1) ≡ suc (min m (suc n - 1))
min_step m n = omega arith

module _ {Clock : Type 0} where
  -- `e` does not come after `f`
  abbrev pub KeyLe : Entry Clock → Entry Clock → Type 0
  KeyLe e f = key_lt f.size f.thread e.size e.thread ≡ false

  abbrev pub IsSorted : List (Entry Clock) → Type 0
  IsSorted [] = Unit
  IsSorted (e ∷ es) = All (KeyLe e) es × IsSorted es

  KeyLe-of_lt : (e f : Entry Clock) → key_lt e.size e.thread f.size f.thread ≡ true → KeyLe e f
  KeyLe-of_lt e f h = ground arith

  KeyLe-trans : (e f g : Entry Clock) → KeyLe e f → KeyLe f g → KeyLe e g
  KeyLe-trans e f g h k = ground arith

  All-KeyLe :
      (e f : Entry Clock) (l : List (Entry Clock)) → KeyLe e f → All (KeyLe f) l → All (KeyLe e) l
  All-KeyLe e f [] h k = tt
  All-KeyLe e f (g ∷ l) h k = (KeyLe-trans e f g h k.0, All-KeyLe e f l h k.1)

  -- the place at which `add_addr` puts an entry
  abbrev place : Entry Clock → List (Entry Clock) → ℕ
  place e l = partition_point (λ (o : Entry Clock). key_lt o.size o.thread e.size e.thread) l

  insert-IsSorted :
      (e : Entry Clock) (l : List (Entry Clock)) → IsSorted l → IsSorted (insert l (place e l) e)
  unfolding partition_point insert
  insert-IsSorted e [] s = (tt, tt)
  insert-IsSorted e (f ∷ l) s = elim (Bool-cases (key_lt f.size f.thread e.size e.thread)) [
    | inl h ↦
        rw h (All-insert (KeyLe f) l (place e l) e (KeyLe-of_lt f e h) s.0, insert-IsSorted e l s.1)
    | inr h ↦ rw h ((h, All-KeyLe e f l h s.0), s)
  ]

  set-IsSorted :
      (e : Entry Clock) (l : List (Entry Clock))
      → IsSorted l
      → IsSorted (set l (min (place e l) (length l - 1)) e)
  unfolding partition_point set
  set-IsSorted e [] s = tt
  set-IsSorted e (f ∷ []) s = rw min_last (tt, tt)
  set-IsSorted e (f ∷ g ∷ l) s = elim (Bool-cases (key_lt f.size f.thread e.size e.thread)) [
    | inl h ↦
        rw (h, min_step)
          (
            All-set (KeyLe f) (g ∷ l) (min (place e (g ∷ l)) (length (g ∷ l) - 1)) e
                (KeyLe-of_lt f e h) s.0,
            set-IsSorted e (g ∷ l) s.1,
          )
    | inr h ↦ rw (h, zero-min) (All-KeyLe e f (g ∷ l) h s.0, s.1)
  ]

  -- Adding an entry to a sorted subpool within its bound keeps it sorted and within its bound,
  -- whether the entry is inserted or replaces one.
  pub add_to_subpool-IsSorted :
      (e : Entry Clock) (l : List (Entry Clock))
      → IsSorted l
      → length l ≤ max_pool_size
      → IsSorted (add_to_subpool l e) × (length (add_to_subpool l e) ≤ max_pool_size)
  unfolding add_to_subpool
  add_to_subpool-IsSorted e l s b = elim (Bool-cases (leb max_pool_size (length l))) [
    | inl h ↦
        rw h (set-IsSorted e l s, omega (arith, length-set l (min (place e l) (length l - 1)) e))
    | inr h ↦ rw h (insert-IsSorted e l s, ground (arith, length-insert l (place e l) e))
  ]

  pub remove-IsSorted : (l : List (Entry Clock)) (i : ℕ) → IsSorted l → IsSorted (remove l i)
  unfolding remove
  remove-IsSorted [] i s = tt
  remove-IsSorted (f ∷ l) zero s = s.1
  remove-IsSorted (f ∷ l) (suc i) s = (All-remove (KeyLe f) l i s.0, remove-IsSorted l i s.1)

  pub All-add_to_subpool :
      (P : Entry Clock → Type 0) (l : List (Entry Clock)) (e : Entry Clock)
      → P e
      → All P l
      → All P (add_to_subpool l e)
  unfolding add_to_subpool
  All-add_to_subpool P l e p h = elim (Bool-cases (leb max_pool_size (length l))) [
    | inl b ↦ rw b (All-set P l (min (place e l) (length l - 1)) e p h)
    | inr b ↦ rw b (All-insert P l (place e l) e p h)
  ]
