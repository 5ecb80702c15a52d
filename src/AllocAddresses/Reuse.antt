-- ===== src/AllocAddresses/Reuse.antt =====
-- src/alloc_addresses/reuse_pool.rs: freed addresses kept for reuse. The random choices are arguments:
-- the coin of each rate, and `pick`, which chooses in a range. An alignment is its exponent, since
-- an `Align` is a power of two: `trailing_zeros` of its bytes. A clock is of any type.
pub mod Sorted
pub mod Laws
pub mod Take
mod Tests
use miri.Base.{
  ℕ, zero, suc, ◌+◌, ◌-◌, ◌^◌, ◌%◌, Bool, true, false, not, ◌&&◌, ◌||◌, ltb, leb, ◌==◌,
  if◌then◌else◌, List, [], ◌∷◌, length, drop, min, get_elem?, Option, none, some, Outcome, panic,
  ret, ◌>>=◌, ◌>>◌, assert,
}

pub record Entry (Clock : Type 0) : Type 0 where
  pub addr : ℕ
  pub size : ℕ
  pub thread : ℕ
  pub clock : Clock

abbrev pub max_pool_size : ℕ
max_pool_size = 64

-- `(*other_size, *other_thread) < (size, thread)`
abbrev pub key_lt : ℕ → ℕ → ℕ → ℕ → Bool
key_lt other_size other_thread size thread =
    ltb other_size size || (other_size == size && ltb other_thread thread)

module _ {ℓ} {A : Type ℓ} where
  -- `slice::partition_point`, for a slice that the test partitions
  unfoldable pub partition_point : (A → Bool) → List A → ℕ
  partition_point test [] = 0
  partition_point test (a ∷ r) = let rest = partition_point test r in if test a then suc rest else 0

  -- `Vec::insert` and an assignment, at an index that is in range
  unfoldable pub insert : List A → ℕ → A → List A
  insert l zero x = x ∷ l
  insert [] (suc i) x = x ∷ []
  insert (a ∷ r) (suc i) x = a ∷ insert r i x

  unfoldable pub set : List A → ℕ → A → List A
  set [] i x = []
  set (a ∷ r) zero x = x ∷ r
  set (a ∷ r) (suc i) x = a ∷ set r i x

  unfoldable pub remove : List A → ℕ → List A
  remove [] i = []
  remove (a ∷ r) zero = r
  remove (a ∷ r) (suc i) = a ∷ remove r i

  -- the number of entries, from the first on, that pass the test
  unfoldable pub run_length : (A → Bool) → List A → ℕ
  run_length test [] = 0
  run_length test (a ∷ r) = let rest = run_length test r in if test a then suc rest else 0

-- the pool without the entry, the entry's address, and its clock if another thread gave it
pub record Taken (Clock : Type 0) : Type 0 where
  pub pool : List (List (Entry Clock))
  pub addr : ℕ
  pub clock : Option Clock

module _ {Clock : Type 0} where
  -- `subpool`: the list of that index. A missing list counts as an empty one, so the resize, which
  -- adds empty lists, is made where a list is written.
  unfoldable pub subpool : List (List (Entry Clock)) → ℕ → List (Entry Clock)
  subpool [] i = []
  subpool (p ∷ ps) zero = p
  subpool (p ∷ ps) (suc i) = subpool ps i

  unfoldable pub set_subpool :
      List (List (Entry Clock)) → ℕ → List (Entry Clock) → List (List (Entry Clock))
  set_subpool [] zero q = q ∷ []
  set_subpool [] (suc i) q = [] ∷ set_subpool [] i q
  set_subpool (p ∷ ps) zero q = q ∷ ps
  set_subpool (p ∷ ps) (suc i) q = p ∷ set_subpool ps i q

  -- the part of `add_addr` that works on the subpool
  unfoldable pub add_to_subpool : List (Entry Clock) → Entry Clock → List (Entry Clock)
  unfolding partition_point insert set
  add_to_subpool l e =
      let pos = partition_point (λ (o : Entry Clock). key_lt o.size o.thread e.size e.thread) l in
      if leb max_pool_size (length l) then set l (min pos (length l - 1)) e else insert l pos e

  unfoldable pub add_addr :
      Bool → Bool → List (List (Entry Clock)) → ℕ → Entry Clock → List (List (Entry Clock))
  unfolding add_to_subpool subpool set_subpool
  add_addr is_stack reuse_coin pool align e =
      if is_stack || not reuse_coin
      then pool
      else set_subpool pool align (add_to_subpool (subpool pool align) e)

  abbrev pub before_range : Bool → ℕ → ℕ → Entry Clock → Bool
  before_range cross size thread o =
      ltb o.size size || (o.size == size && not cross && ltb o.thread thread)

  -- the entries that the `while` loop walks over
  abbrev pub in_range : Bool → ℕ → ℕ → Entry Clock → Bool
  in_range cross size thread o = o.size == size && (cross || o.thread == thread)

  -- from the two ends of the range on; `subpool.remove(idx)` panics beyond the list
  take_at :
      Bool
      → List (List (Entry Clock))
      → ℕ
      → ℕ
      → ℕ
      → ℕ
      → Option (Entry Clock)
      → Outcome (Option (Taken Clock))
  unfolding subpool set_subpool remove
  take_at cross pool size align thread idx none = panic
  take_at cross pool size align thread idx (some e) = do
    assert (leb size e.size && (e.addr % 2 ^ align == 0))
    assert (cross || e.thread == thread)
    ret (
        some (record {
          pool = set_subpool pool align (remove (subpool pool align) idx);
          addr = e.addr;
          clock = if e.thread == thread then none else some e.clock;
        }))

  unfoldable pub take_addr :
      Bool
      → Bool
      → Bool
      → (ℕ → ℕ → ℕ)
      → List (List (Entry Clock))
      → ℕ
      → ℕ
      → ℕ
      → Outcome (Option (Taken Clock))
  unfolding take_at partition_point run_length
  take_addr is_stack reuse_coin cross pick pool size align thread =
      if is_stack || not reuse_coin
      then ret none
      else (let l = subpool pool align in
          let begin = partition_point (before_range cross size thread) l in
          let end = begin + run_length (in_range cross size thread) (drop begin l) in
          if end == begin
          then ret none
          else take_at cross pool size align thread (pick begin end) (get_elem? l (pick begin end)))
