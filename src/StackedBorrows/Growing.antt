-- ===== src/StackedBorrows/Growing.antt =====
-- stack.rs: stacks that start, are cleared, or get an item.
use miri.Base.{
  length-take, true-ne-false, ℕ, ◌+◌, ◌-◌, ◌≤◌, ◌<◌, ◌≡◌, ◌≢◌, refl, sym, ◌∙◌, ap, subst, Bool,
  true, false, ◌==◌, if◌then◌else◌, some, List, [], ◌∷◌, length, get_elem?, zero, suc, arith, inl,
  inr, Returns, map_Returns,
}
use mathlib.Core.Option.{some-injective}
use miri.StackedBorrows.Stack.{
  Permission, is_unique_perm, Item, Cached, Stack, cache_len, add, insert_at, shifted, shift_range,
  include, shift_cache, insert_cache, insert, repeated, new, set_unknown_bottom,
}
use miri.StackedBorrows.Valid.{IsRight, IsValid, add-IsRight}
use miri.StackedBorrows.Inserted.{
  Inserted, insert_at-Inserted, shift_cache-IsRight, pushed-IsRight, range_includes, range_bounds,
}

pub unique_test : (p : Permission) → p ≡ Permission.unique → is_unique_perm p ≡ true
unique_test p e = rw (e) refl

-- where the items of a kind are in the longer stack
range_after_insert :
    (st : Stack) (i : ℕ) (item : Item) (l' : List Item)
    → IsValid st
    → i ≤ length st.borrows
    → Inserted i item st.borrows l'
    → (t : Bool) → is_unique_perm item.perm ≡ t
    → let m = shift_range i st.unique_range in
      let n = if t then include i m else m in
      ((k : ℕ) (a : Item)
        → get_elem? l' k ≡ some a
        → a.perm ≡ Permission.unique
        → (n.start ≤ k) × (k < n.end))
      × ((n.start ≤ n.end) × (n.end ≤ length l'))
range_after_insert st i item l' v b r true e = (
  λ k a f u. elim (r.origin k a f) [
    | inl (p, q) ↦ ground (arith, p, range_includes st.unique_range i 0 (v.range.0))
    | inr (j, p, q) ↦
        ground (arith, p, range_includes st.unique_range i j (v.range.0), v.uniques j a q u)
  ],
  ground (
    arith,
    r.longer,
    range_bounds st.unique_range i (length st.borrows) (v.range.0) (v.range.1) b,
  ),
)
range_after_insert st i item l' v b r false e = (
  λ k a f u. elim (r.origin k a f) [
    | inl (p, q) ↦ absurd (
        true-ne-false
          (sym (unique_test item.perm (subst (λ x. Item.perm x ≡ Permission.unique) q u)) ∙ e))
    | inr (j, p, q) ↦
        ground (arith, p, range_includes st.unique_range i j (v.range.0), v.uniques j a q u)
  ],
  ground (
    arith,
    r.longer,
    range_bounds st.unique_range i (length st.borrows) (v.range.0) (v.range.1) b,
  ),
)

distinct_after_insert :
    (st : Stack) (i : ℕ) (item : Item) (l' : List Item)
    → IsValid st
    → ((j : ℕ) (a : Item) → get_elem? st.borrows j ≡ some a → a.tag ≢ item.tag)
    → Inserted i item st.borrows l'
    → (k h : ℕ) (a b : Item) → get_elem? l' k ≡ some a
    → get_elem? l' h ≡ some b
    → a.tag ≡ b.tag
    → k ≡ h
distinct_after_insert st i item l' v fresh r k h a b e f same = elim (r.origin k a e) [
  | inl (p, q) ↦ elim (r.origin h b f) [
    | inl (p1, q1) ↦ omega (arith, p, p1)
    | inr (j1, p1, q1) ↦ absurd (fresh j1 b q1 (sym same ∙ ap Item.tag q))
  ]
  | inr (j, p, q) ↦ elim (r.origin h b f) [
    | inl (p1, q1) ↦ absurd (fresh j a q (same ∙ ap Item.tag q1))
    | inr (j1, p1, q1) ↦ p ∙ ap (λ n. shifted i n) (v.distinct j j1 a b q q1 same) ∙ sym p1
  ]
]

entries_after_insert :
    (st : Stack) (i : ℕ) (item : Item) (l' : List Item)
    → IsValid st
    → Inserted i item st.borrows l'
    → (t : Bool) → (t ≡ true → i ≡ length st.borrows)
    → (p : ℕ) (c : Cached) → p + 1 < length l'
    → get_elem? (if t then st.cache else shift_cache i st.cache) p ≡ some c
    → get_elem? l' c.idx ≡ some c.item
entries_after_insert st i item l' v r true h =
    pushed-IsRight i item st.borrows l' st.cache r (h refl) v.cached
entries_after_insert st i item l' v r false h =
    shift_cache-IsRight i item st.borrows l' st.cache r v.cached

after_insert-IsRight :
    (st : Stack) (i : ℕ) (item : Item) (l' : List Item)
    → IsValid st
    → Inserted i item st.borrows l'
    → IsRight l' (add i item (if i == length l' - 1 then st.cache else shift_cache i st.cache))
after_insert-IsRight st i item l' v r =
    add-IsRight l' (if i == length l' - 1 then st.cache else shift_cache i st.cache) i item
      (entries_after_insert st i item l' v r (i == length l' - 1)
        (λ t. ground (arith, t, r.longer)))
      r.there

insert_cache-IsValid :
    (st : Stack) (i : ℕ) (item : Item) (l' : List Item)
    → IsValid st
    → i ≤ length st.borrows
    → ((j : ℕ) (a : Item) → get_elem? st.borrows j ≡ some a → a.tag ≢ item.tag)
    → Inserted i item st.borrows l'
    → IsValid (insert_cache i item (record st { borrows = l' }))
unfolding insert_cache
insert_cache-IsValid st i item l' v b fresh r =
    let ranges = range_after_insert st i item l' v b r (is_unique_perm item.perm) refl in
    record {
      cached = after_insert-IsRight st i item l' v r;
      size = omega (
        arith,
        length-take (cache_len - 1)
            (if i == length l' - 1 then st.cache else shift_cache i st.cache),
      );
      uniques = ranges.0;
      range = ranges.1;
      distinct = distinct_after_insert st i item l' v fresh r;
    }

-- Inserting an item with a new tag into a valid stack, at its end or before, does not panic and gives
-- a valid stack, longer by this item.
pub insert-IsValid :
    (st : Stack) (i : ℕ) (item : Item)
    → IsValid st
    → i ≤ length st.borrows
    → ((j : ℕ) (a : Item) → get_elem? st.borrows j ≡ some a → a.tag ≢ item.tag)
    → Returns (insert i item st) λ st'.
      IsValid st'
      × (length st'.borrows ≡ length st.borrows + 1)
      × (get_elem? st'.borrows i ≡ some item)
unfolding insert insert_cache
insert-IsValid st i item v b fresh =
    map_Returns (Inserted i item st.borrows)
      (λ st'.
        IsValid st'
        × (length st'.borrows ≡ length st.borrows + 1)
        × (get_elem? st'.borrows i ≡ some item))
      (λ l. insert_cache i item (record st { borrows = l })) (insert_at i item st.borrows)
      (insert_at-Inserted i item st.borrows b)
      (λ l' r. (insert_cache-IsValid st i item l' v b fresh r, r.longer, r.there))

repeated-item :
    (n : ℕ) (item : Item) (p : ℕ) (c : Cached)
    → get_elem? (repeated n item) p ≡ some c
    → c ≡ record { item = item; idx = 0 }
repeated-item zero item p c e = cc
repeated-item (suc n) item zero c e = sym (some-injective _ c e)
repeated-item (suc n) item (suc p) c e = repeated-item n item p c e

only_item :
    (item : Item) (i : ℕ) (a : Item) → get_elem? (item ∷ []) i ≡ some a → (i ≡ 0) × (a ≡ item)
only_item item zero a e = (refl, sym (some-injective item a e))
only_item item (suc i) a e = cc

-- A new stack is valid.
pub new-IsValid : (item : Item) → IsValid (new item)
unfolding new
new-IsValid item = record {
  cached = λ p c b e.
      subst (λ d. get_elem? (item ∷ []) (Cached.idx d) ≡ some (Cached.item d))
        (sym (repeated-item cache_len item p c e)) refl;
  size = omega arith;
  uniques = λ i a e u.
      let p = only_item item i a e in
      let t = unique_test item.perm (subst (λ b. Item.perm b ≡ Permission.unique) (p.1) u) in
      ground (arith, p.0, t);
  range = ground arith;
  distinct = λ i j a b e f t. omega (arith, (only_item item i a e).0, (only_item item j b f).0);
}

-- A stack that is cleared is valid, whatever was in it: none of the cache counts.
pub set_unknown_bottom-IsValid :
    (tag : ℕ) (st : Stack) → length st.cache ≤ cache_len → IsValid (set_unknown_bottom tag st)
unfolding set_unknown_bottom
set_unknown_bottom-IsValid tag st b = record {
  cached = λ p c n e. absurd (omega (arith, n));
  size = b;
  uniques = λ i a e u. cc;
  range = (omega arith, omega arith);
  distinct = λ i j a b e f t. cc;
}
