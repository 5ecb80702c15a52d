-- ===== src/StackedBorrows/Search.antt =====
-- stack.rs: the search with the cache against the search of the whole stack.
use miri.Base.{
  length-take, ℕ, ◌-◌, ◌≤◌, ◌<◌, ◌≡◌, refl, sym, ap, subst, Bool, true, false, ◌==◌, leb, ltb,
  Option, none, some, List, [], ◌∷◌, length, get_elem?, zero, suc, arith, Bool-cases, Option-cases,
  inl, inr, ==_iff,
}
use mathlib.Core.Option.{some-injective}
use miri.TreeBorrows.Perms.{AccessKind}
use miri.StackedBorrows.Stack.{
  Item, Cached, Stack, cache_len, grants, add, or_above, or_later, position, swap, refresh,
  find_granting_cache, rfind, tagged, remember, or_search, use_cached, found_index,
  find_granting_tagged,
}
use miri.StackedBorrows.Valid.{IsRight, IsValid, get-lt, add-IsRight}

abbrev IsAt : (Item → Bool) → List Item → ℕ × Item → Type 0
IsAt test l r = (get_elem? l (r.0) ≡ some (r.1)) × (test (r.1) ≡ true)

or_above-IsAt :
    (test : Item → Bool) (a : Item) (l : List Item) (r : ℕ × Item) (t : Bool)
    (o : Option (ℕ × Item))
    → test a ≡ t
    → ((q : ℕ × Item) → o ≡ some q → IsAt test l q)
    → or_above t a o ≡ some r
    → IsAt test (a ∷ l) r
or_above-IsAt test a l r t (some q) h ih e =
    subst (IsAt test (a ∷ l)) (some-injective (suc (q.0), q.1) r e) (ih q refl)
or_above-IsAt test a l r true none h ih e =
    subst (IsAt test (a ∷ l)) (some-injective (0, a) r e) (refl, h)
or_above-IsAt test a l r false none h ih e = cc

pub rfind-IsAt :
    (test : Item → Bool) (l : List Item) (r : ℕ × Item) → rfind test l ≡ some r → IsAt test l r
unfolding rfind
rfind-IsAt test [] r e = cc
rfind-IsAt test (a ∷ l) r e =
    or_above-IsAt test a l r (test a) (rfind test l) refl (λ q f. rfind-IsAt test l q f) e

-- the only item with the property is found
rfind-only :
    (test : Item → Bool) (l : List Item) (k : ℕ) (a : Item)
    → get_elem? l k ≡ some a
    → test a ≡ true
    → ((j : ℕ) (b : Item) → get_elem? l j ≡ some b → test b ≡ true → j ≡ k)
    → rfind test l ≡ some (k, a)
unfolding rfind
rfind-only test [] k a e t u = cc
rfind-only test (c ∷ l) zero a e t u = elim (Option-cases (rfind test l)) [
  | inl n ↦
      rw (n, subst (λ b. test b ≡ true) (sym (some-injective c a e)) t)
        (ap (λ b. some (0, b)) (some-injective c a e))
  | inr (q, f) ↦
      let g = rfind-IsAt test l q f in absurd (omega (arith, u (suc (q.0)) (q.1) (g.0) (g.1)))
]
rfind-only test (c ∷ l) (suc k) a e t u =
    rw (rfind-only test l k a e t (λ j b f g. omega (arith, u (suc j) b f g))) refl

abbrev IsCachedAt : ℕ → List Cached → ℕ × Cached → Type 0
IsCachedAt tag l r =
    (get_elem? l (r.0) ≡ some (r.1)) × (let c = r.1 in let item = c.item in item.tag ≡ tag)

or_later-IsCachedAt :
    (tag : ℕ) (c : Cached) (l : List Cached) (r : ℕ × Cached) (t : Bool) (o : Option (ℕ × Cached))
    → (let item = c.item in (item.tag == tag) ≡ t)
    → ((q : ℕ × Cached) → o ≡ some q → IsCachedAt tag l q)
    → or_later t c o ≡ some r
    → IsCachedAt tag (c ∷ l) r
or_later-IsCachedAt tag c l r true o h ih e =
    subst (IsCachedAt tag (c ∷ l)) (some-injective (0, c) r e) (refl, (==_iff _ tag).0 h)
or_later-IsCachedAt tag c l r false none h ih e = cc
or_later-IsCachedAt tag c l r false (some q) h ih e =
    subst (IsCachedAt tag (c ∷ l)) (some-injective (suc (q.0), q.1) r e) (ih q refl)

position-IsCachedAt :
    (tag : ℕ) (l : List Cached) (r : ℕ × Cached) → position tag l ≡ some r → IsCachedAt tag l r
unfolding position
position-IsCachedAt tag [] r e = cc
position-IsCachedAt tag (c ∷ l) r e =
    or_later-IsCachedAt tag c l r _ (position tag l) refl (λ q f. position-IsCachedAt tag l q f) e

-- a stack with another cache
with_cache-IsValid :
    (st : Stack) (cache : List Cached)
    → IsValid st
    → IsRight st.borrows cache
    → length cache ≤ cache_len
    → IsValid (record st { cache = cache })
with_cache-IsValid st cache v r n = record {
  cached = r;
  size = n;
  uniques = v.uniques;
  range = v.range;
  distinct = v.distinct;
}

-- The result is that of the search of the stack, which is as it was, but for the cache.
abbrev pub Searched : AccessKind → ℕ → Stack → Option ℕ × Stack → Type 0
Searched access tag st r =
    let st' = r.1 in
    (r.0 ≡ found_index (rfind (tagged access tag) st.borrows))
    × (st' ≡ record st { cache = st'.cache })
    × IsValid st'

remember-Searched :
    (access : AccessKind) (tag : ℕ) (st : Stack)
    → IsValid st
    → (o : Option (ℕ × Item)) → rfind (tagged access tag) st.borrows ≡ o
    → Searched access tag st (remember st o)
remember-Searched access tag st v none e = (rw (e) refl, refl, v)
remember-Searched access tag st v (some q) e = (
  rw (e) refl,
  refl,
  with_cache-IsValid st (add (q.0) (q.1) st.cache) v
      (add-IsRight st.borrows st.cache (q.0) (q.1) (λ p c b g. v.cached p c (omega (arith, b)) g)
        (rfind-IsAt (tagged access tag) st.borrows q e).0)
      (omega (arith, length-take (cache_len - 1) st.cache)),
)

refresh-IsRight :
    (l : List Item) (cache : List Cached) (pos : ℕ) (c : Cached)
    → ((p : ℕ) (d : Cached) → get_elem? cache p ≡ some d → get_elem? l d.idx ≡ some d.item)
    → get_elem? cache pos ≡ some c
    → IsRight l (refresh pos c cache)
unfolding refresh
refresh-IsRight l cache pos c v e = elim (Bool-cases (pos == 1)) [
  | inl o ↦ rw (o) (swapped cache v)
  | inr n ↦ elim (Bool-cases (ltb 1 pos)) [
    | inl g ↦ rw (n, g) (add-IsRight l cache c.idx c.item (λ p d b q. v p d q) (v pos c e))
    | inr h ↦ rw (n, h) (λ p d b q. v p d q)
  ]
]
  where
    swapped :
        (cache : List Cached)
        → ((p : ℕ) (d : Cached) → get_elem? cache p ≡ some d → get_elem? l d.idx ≡ some d.item)
        → IsRight l (swap cache)
    swapped [] v p d b q = cc
    swapped (a ∷ []) v p d b q = v p d q
    swapped (a ∷ x ∷ r) v zero d b q = v 1 d q
    swapped (a ∷ x ∷ r) v (suc zero) d b q = v 0 d q
    swapped (a ∷ x ∷ r) v (suc (suc p)) d b q = v (suc (suc p)) d q

length-refresh :
    (pos : ℕ) (c : Cached) (cache : List Cached)
    → length cache ≤ cache_len
    → length (refresh pos c cache) ≤ cache_len
unfolding refresh
length-refresh pos c cache b = elim (Bool-cases (pos == 1)) [
  | inl o ↦ rw (o) (same_length cache b)
  | inr n ↦ elim (Bool-cases (ltb 1 pos)) [
    | inl g ↦ rw (n, g) (omega (arith, length-take (cache_len - 1) cache))
    | inr h ↦ rw (n, h) b
  ]
]
  where
    same_length : (cache : List Cached) → length cache ≤ cache_len → length (swap cache) ≤ cache_len
    same_length [] b = b
    same_length (a ∷ []) b = b
    same_length (a ∷ x ∷ r) b = b

-- what the cache gives is what the search of the stack would
cached-only :
    (access : AccessKind) (tag : ℕ) (st : Stack) (c : Cached)
    → IsValid st
    → get_elem? st.borrows c.idx ≡ some c.item
    → (let item = c.item in item.tag ≡ tag)
    → (let item = c.item in grants item.perm access ≡ true)
    → rfind (tagged access tag) st.borrows ≡ some (c.idx, c.item)
cached-only access tag st c v e t g =
    rfind-only (tagged access tag) st.borrows c.idx c.item e (ground (arith, t, g))
      (λ j b f h. v.distinct j c.idx b c.item f e (ground (arith, t, h)))

-- the search of the stack after none of the cache
missed :
    (access : AccessKind) (tag : ℕ) (st : Stack)
    → IsValid st
    → Searched access tag st (or_search access tag (none, st))
missed access tag st v = remember-Searched access tag st v _ refl

used-Searched :
    (access : AccessKind) (tag : ℕ) (st : Stack)
    → IsValid st
    → cache_len < length st.borrows
    → (o : Option (ℕ × Cached)) → position tag st.cache ≡ o
    → Searched access tag st (or_search access tag (use_cached access st o))
used-Searched access tag st v b none e = missed access tag st v
used-Searched access tag st v b (some (pos, c)) e =
    let item = c.item in
    elim (Bool-cases (grants item.perm access)) [
      | inr g ↦ rw (g) (missed access tag st v)
      | inl g ↦ rw (g) (
        rw (cached-only access tag st c v (right pos c (at_pos.0)) (at_pos.1) g) refl,
        refl,
        with_cache-IsValid st (refresh pos c st.cache) v
            (refresh-IsRight st.borrows st.cache pos c right (at_pos.0))
            (length-refresh pos c st.cache v.size),
      )
    ]
  where
    at_pos : IsCachedAt tag st.cache (pos, c)
    at_pos = position-IsCachedAt tag st.cache (pos, c) e

    right :
        (p : ℕ) (d : Cached)
        → get_elem? st.cache p ≡ some d
        → get_elem? st.borrows d.idx ≡ some d.item
    right p d q = v.cached p d (omega (arith, b, v.size, get-lt st.cache p d q)) q

-- The search of a valid stack for an item with a tag that grants an access finds, with the cache and
-- without, the one that a search of the whole stack from its top finds, if any. It changes nothing
-- but the cache, and the stack stays valid.
pub find_granting_tagged_lem :
    (access : AccessKind) (tag : ℕ) (st : Stack)
    → IsValid st
    → Searched access tag st (find_granting_tagged access tag st)
unfolding find_granting_tagged find_granting_cache
find_granting_tagged_lem access tag st v = elim (Bool-cases (leb (length st.borrows) cache_len)) [
  | inl s ↦ rw (s, find_granting_tagged) (missed access tag st v)
  | inr n ↦
      rw (n, find_granting_tagged)
        (used-Searched access tag st v (ground (arith, n)) (position tag st.cache) refl)
]
