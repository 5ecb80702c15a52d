-- ===== src/StackedBorrows/Valid.antt =====
-- stack.rs: what the cache and the range of unique items have to do with the stack.
use miri.Base.{
  get-take, ℕ, ◌+◌, ◌-◌, ◌≤◌, ◌<◌, ◌≡◌, subst, some, List, [], ◌∷◌, length, get_elem?, zero, suc,
  arith,
}
use mathlib.Core.Option.{some-injective}
use miri.StackedBorrows.Stack.{Permission, Item, Cached, Stack, cache_len, add}

-- An entry of the cache is right up to the place that the stack is long: one that is not may be there
-- only after the stack was cleared.
abbrev pub IsRight : List Item → List Cached → Type 0
IsRight l cache =
    (p : ℕ) (c : Cached)
    → p < length l
    → get_elem? cache p ≡ some c
    → get_elem? l c.idx ≡ some c.item

pub record IsValid (st : Stack) : Type 0 where
  pub cached : IsRight st.borrows st.cache
  pub size : length st.cache ≤ cache_len
  pub uniques :
      (i : ℕ) (a : Item)
      → get_elem? st.borrows i ≡ some a
      → a.perm ≡ Permission.unique
      → let r = st.unique_range in (r.start ≤ i) × (i < r.end)
  pub range : let r = st.unique_range in (r.start ≤ r.end) × (r.end ≤ length st.borrows)
  pub distinct :
      (i j : ℕ) (a b : Item)
      → get_elem? st.borrows i ≡ some a
      → get_elem? st.borrows j ≡ some b
      → a.tag ≡ b.tag
      → i ≡ j

pub get-lt {ℓ} : {A : Type ℓ} (l : List A) (i : ℕ) (a : A) → get_elem? l i ≡ some a → i < length l
get-lt [] i a e = cc
get-lt (b ∷ l) zero a e = omega arith
get-lt (b ∷ l) (suc i) a e = omega (arith, get-lt l i a e)

pub add-IsRight :
    (l : List Item) (cache : List Cached) (idx : ℕ) (item : Item)
    → ((p : ℕ) (c : Cached)
        → p + 1 < length l
        → get_elem? cache p ≡ some c
        → get_elem? l c.idx ≡ some c.item)
    → get_elem? l idx ≡ some item
    → IsRight l (add idx item cache)
add-IsRight l cache idx item v e zero c b q =
    subst (λ d. get_elem? l (Cached.idx d) ≡ some (Cached.item d)) (some-injective _ c q) e
add-IsRight l cache idx item v e (suc p) c b q =
    v p c (omega (arith, b)) (get-take (cache_len - 1) cache p c q)
