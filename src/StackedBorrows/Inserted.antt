-- ===== src/StackedBorrows/Inserted.antt =====
-- stack.rs: where the items of a stack are when one is inserted.
use miri.Base.{
  ℕ, ◌+◌, ◌≤◌, ◌<◌, ◌≡◌, ◌⊎◌, refl, sym, ◌∙◌, ap, subst, some, List, [], ◌∷◌, length, get_elem?,
  zero, suc, arith, inl, inr, Returns, map_Returns,
}
use mathlib.Core.Option.{some-injective}
use miri.StackedBorrows.Stack.{
  Item, Cached, Range, insert_at, shifted, shift_range, include, shift_cache,
}
use miri.StackedBorrows.Valid.{IsRight, get-lt}

-- An item of the longer stack is the new one or an old one at its place.
abbrev Origin : ℕ → Item → List Item → ℕ → Item → Type 0
Origin i item l k a =
    ((k ≡ i) × (a ≡ item)) ⊎ ((j : ℕ) × (k ≡ shifted i j) × (get_elem? l j ≡ some a))

pub record Inserted (i : ℕ) (item : Item) (l l' : List Item) : Type 0 where
  pub longer : length l' ≡ length l + 1
  pub there : get_elem? l' i ≡ some item
  pub kept : (j : ℕ) (a : Item) → get_elem? l j ≡ some a → get_elem? l' (shifted i j) ≡ some a
  pub origin : (k : ℕ) (a : Item) → get_elem? l' k ≡ some a → Origin i item l k a

shifted-zero : (j : ℕ) → suc j ≡ shifted 0 j
shifted-zero j = ground arith

zero-shifted : (i : ℕ) → 0 ≡ shifted (suc i) 0
zero-shifted i = ground arith

shifted-suc : (i j : ℕ) → suc (shifted i j) ≡ shifted (suc i) (suc j)
shifted-suc i j = ground arith

first-Inserted : (item : Item) (l : List Item) → Inserted 0 item l (item ∷ l)
first-Inserted item l = record {
  longer = omega arith;
  there = refl;
  kept = λ j a e. subst (λ k. get_elem? (item ∷ l) k ≡ some a) (shifted-zero j) e;
  origin = λ k a e. origin k a e;
}
  where
    origin : (k : ℕ) (a : Item) → get_elem? (item ∷ l) k ≡ some a → Origin 0 item l k a
    origin zero a e = inl (refl, sym (some-injective item a e))
    origin (suc k) a e = inr (k, shifted-zero k, e)

next-Inserted :
    (i : ℕ) (item b : Item) (l l' : List Item)
    → Inserted i item l l'
    → Inserted (suc i) item (b ∷ l) (b ∷ l')
next-Inserted i item b l l' r = record {
  longer = omega (arith, r.longer);
  there = r.there;
  kept = λ j a e. kept j a e;
  origin = λ k a e. origin k a e;
}
  where
    kept :
        (j : ℕ) (a : Item)
        → get_elem? (b ∷ l) j ≡ some a
        → get_elem? (b ∷ l') (shifted (suc i) j) ≡ some a
    kept zero a e = subst (λ k. get_elem? (b ∷ l') k ≡ some a) (zero-shifted i) e
    kept (suc j) a e = subst (λ k. get_elem? (b ∷ l') k ≡ some a) (shifted-suc i j) (r.kept j a e)

    origin : (k : ℕ) (a : Item) → get_elem? (b ∷ l') k ≡ some a → Origin (suc i) item (b ∷ l) k a
    origin zero a e = inr (0, zero-shifted i, e)
    origin (suc k) a e = elim (r.origin k a e) [
      | inl (p, q) ↦ inl (ap suc p, q)
      | inr (j, p, q) ↦ inr (suc j, ap suc p ∙ shifted-suc i j, q)
    ]

pub insert_at-Inserted :
    (i : ℕ) (item : Item) (l : List Item)
    → i ≤ length l
    → Returns (insert_at i item l) (Inserted i item l)
unfolding insert_at
insert_at-Inserted zero item l b = first-Inserted item l
insert_at-Inserted (suc i) item [] b = absurd (omega (arith, b))
insert_at-Inserted (suc i) item (a ∷ l) b =
    map_Returns (Inserted i item l) (Inserted (suc i) item (a ∷ l)) (λ r. a ∷ r)
      (insert_at i item l) (insert_at-Inserted i item l (omega (arith, b)))
      (λ l' r. next-Inserted i item a l l' r)

get-shift_cache :
    (i : ℕ) (cache : List Cached) (p : ℕ) (c : Cached)
    → get_elem? (shift_cache i cache) p ≡ some c
    → (d : Cached) × (get_elem? cache p ≡ some d) × (c ≡ record d { idx = shifted i d.idx })
get-shift_cache i [] p c e = cc
get-shift_cache i (d ∷ l) zero c e = (d, refl, sym (some-injective _ c e))
get-shift_cache i (d ∷ l) (suc p) c e = get-shift_cache i l p c e

pub shift_cache-IsRight :
    (i : ℕ) (item : Item) (l l' : List Item) (cache : List Cached)
    → Inserted i item l l'
    → IsRight l cache
    → (p : ℕ) (c : Cached) → p + 1 < length l'
    → get_elem? (shift_cache i cache) p ≡ some c
    → get_elem? l' c.idx ≡ some c.item
shift_cache-IsRight i item l l' cache r v p c b e =
    let s = get-shift_cache i cache p c e in
    let d = s.0 in
    subst (λ x. get_elem? l' (Cached.idx x) ≡ some (Cached.item x)) (sym (s.2))
      (r.kept d.idx d.item (v p d (omega (arith, b, r.longer)) (s.1)))

-- an item that is pushed moves no other
pub pushed-IsRight :
    (i : ℕ) (item : Item) (l l' : List Item) (cache : List Cached)
    → Inserted i item l l'
    → i ≡ length l
    → IsRight l cache
    → (p : ℕ) (c : Cached) → p + 1 < length l'
    → get_elem? cache p ≡ some c
    → get_elem? l' c.idx ≡ some c.item
pushed-IsRight i item l l' cache r top v p c b e =
    let f = v p c (omega (arith, b, r.longer)) e in
    let n = get-lt l c.idx c.item f in
    subst (λ k. get_elem? l' k ≡ some c.item) (ground (arith, n, top)) (r.kept c.idx c.item f)

pub range_includes :
    (r : Range) (i : ℕ) (j : ℕ)
    → r.start ≤ r.end
    → let m = shift_range i r in
      let n = include i m in
      ((n.start ≤ i) × (i < n.end))
      × ((r.start ≤ j) × (j < r.end)
          → ((n.start ≤ shifted i j) × (shifted i j < n.end))
            × ((m.start ≤ shifted i j) × (shifted i j < m.end)))
range_includes r i j b = ground arith

pub range_bounds :
    (r : Range) (i len : ℕ)
    → r.start ≤ r.end
    → r.end ≤ len
    → i ≤ len
    → let m = shift_range i r in
      let n = include i m in
      ((m.start ≤ m.end) × (m.end ≤ len + 1)) × ((n.start ≤ n.end) × (n.end ≤ len + 1))
range_bounds r i len b c d = ground arith
