-- ===== src/StackedBorrows/Loop.antt =====
-- stack.rs: the stack after the loop that disables items.
use miri.Base.{
  ℕ, ◌≤◌, ◌<◌, ◌≡◌, refl, sym, ◌∙◌, ap, subst, Bool, true, false, ◌&&◌, leb, ltb, if◌then◌else◌,
  some, List, [], ◌∷◌, length, get_elem?, zero, suc, arith, Bool-cases, inl, inr, max,
}
use mathlib.Core.Option.{some-injective}
use miri.StackedBorrows.Stack.{Permission, is_unique_perm, Item, Cached, Range, Stack}
use miri.StackedBorrows.Disable.{disabled_item, hits, truncate_range}
use miri.StackedBorrows.Valid.{IsValid, get-lt}
use miri.StackedBorrows.Growing.{unique_test}
use miri.StackedBorrows.Disabled.{Marked, Looped}

lt-get {ℓ} : {A : Type ℓ} (l : List A) (i : ℕ) → i < length l → (a : A) × (get_elem? l i ≡ some a)
lt-get [] i b = absurd (omega (arith, b))
lt-get (a ∷ l) zero b = (a, refl)
lt-get (a ∷ l) (suc i) b = lt-get l i (omega (arith, b))

pub test-unique : (p : Permission) → is_unique_perm p ≡ true → p ≡ Permission.unique
test-unique Permission.unique e = refl
test-unique Permission.shared_read_write e = cc
test-unique Permission.shared_read_only e = cc
test-unique Permission.disabled e = cc

disabled_not_unique : ¬ (Permission.disabled ≡ Permission.unique)
disabled_not_unique p = cc

-- the items of the stack that the loop leaves, by their index
abbrev after : Range → ℕ → Item → Item
after r k a = if hits r k a then disabled_item a else a

after_tag : (r : Range) (k : ℕ) (a : Item) → let b = after r k a in b.tag ≡ a.tag
after_tag r k a = elim (Bool-cases (hits r k a)) [ inl h ↦ rw (h) refl | inr n ↦ rw (n) refl ]

pub items_at :
    (r : Range) (l l' : List Item) (cache cache' : List Cached)
    → Looped 0 r l cache l' cache'
    → (j : ℕ) (a : Item) → get_elem? l j ≡ some a
    → get_elem? l' j ≡ some (after r j a)
items_at r l l' cache cache' k j a e = k.items j a e ∙ ap (λ m. some (after r m a)) (omega arith)

-- where an item of the new stack comes from
item_before :
    (r : Range) (l l' : List Item) (cache cache' : List Cached)
    → Looped 0 r l cache l' cache'
    → (j : ℕ) (b : Item) → get_elem? l' j ≡ some b
    → (a : Item) × (get_elem? l j ≡ some a) × (b ≡ after r j a)
item_before r l l' cache cache' k j b e =
    let x = lt-get l j (omega (arith, get-lt l' j b e, k.same_length)) in
    (x.0, x.1, some-injective b _ (sym e ∙ items_at r l l' cache cache' k j (x.0) (x.1)))

entry_after :
    (st : Stack) (r : Range) (l' : List Item) (c c' : Cached)
    → IsValid st
    → ((j : ℕ) (a : Item) → get_elem? st.borrows j ≡ some a → get_elem? l' j ≡ some (after r j a))
    → get_elem? st.borrows c.idx ≡ some c.item
    → Marked 0 r st.borrows c c'
    → get_elem? l' c'.idx ≡ some c'.item
entry_after st r l' c c' v k e (n, inl (p, q)) = elim (Bool-cases (hits r c.idx c.item)) [
  | inl h ↦ absurd (q (c.idx, c.item, e, subst (λ m. hits r m c.item ≡ true) (omega arith) h, refl))
  | inr h ↦
      subst (λ i. get_elem? l' i ≡ some c'.item) (sym n)
        (k c.idx c.item e ∙ rw (h) (ap some (sym p)))
]
entry_after st r l' c c' v k e (n, inr (p, (j, a, f, h, t))) =
    let same : j ≡ c.idx = v.distinct j c.idx a c.item f e t in
    let g : a ≡ c.item =
      some-injective a c.item (sym (subst (λ i. get_elem? st.borrows i ≡ some a) same f) ∙ e) in
    let h1 : hits r c.idx c.item ≡ true =
      subst (λ i. hits r i c.item ≡ true) same
        (subst (λ b. hits r j b ≡ true) g (subst (λ m. hits r m a ≡ true) (omega arith) h)) in
    subst (λ i. get_elem? l' i ≡ some c'.item) (sym n)
      (k c.idx c.item e ∙ rw (h1) (ap some (sym p)))

-- the bounds of a unique item that is left
unique_left :
    (r : Range) (disable_start k : ℕ) (u : Bool)
    → u ≡ true
    → (leb (max r.start disable_start) k && ltb k r.end && u) ≡ false
    → r.start ≤ k
    → k < r.end
    → let n = truncate_range disable_start r in (n.start ≤ k) × (k < n.end)
unique_left r disable_start k u e h b c = ground (arith, e, h, b, c)

pub truncated_bounds :
    (r : Range) (disable_start len : ℕ)
    → r.start ≤ r.end
    → r.end ≤ len
    → let n = truncate_range disable_start r in (n.start ≤ n.end) × (n.end ≤ len)
truncated_bounds r disable_start len b c = ground (arith, b, c)

pub after_loop-IsValid :
    (st : Stack) (disable_start : ℕ) (l' : List Item) (cache' : List Cached)
    → IsValid st
    → let u = st.unique_range in
      Looped 0
        (record { start = max u.start disable_start; end = u.end })
        st.borrows
        st.cache
        l'
        cache'
      → IsValid (record st {
        borrows = l';
        cache = cache';
        unique_range = truncate_range disable_start st.unique_range;
      })
after_loop-IsValid st disable_start l' cache' v k = record {
  cached = λ p c' b e.
      let x = k.entries p c' e in
      let c = x.0 in
      entry_after st r l' c c' v (items_at r st.borrows l' st.cache cache' k)
        (v.cached p c (omega (arith, b, k.same_length)) (x.1)) (x.2);
  size = omega (arith, k.same_size, v.size);
  uniques = λ i b e u.
      let x = item_before r st.borrows l' st.cache cache' k i b e in
      left i (x.0) (x.1) (subst (λ y. Item.perm y ≡ Permission.unique) (x.2) u);
  range = ground (
    arith,
    k.same_length,
    truncated_bounds st.unique_range disable_start (length st.borrows) (v.range.0) (v.range.1),
  );
  distinct = λ i j a b e f t.
      let x = item_before r st.borrows l' st.cache cache' k i a e in
      let y = item_before r st.borrows l' st.cache cache' k j b f in
      v.distinct i j (x.0) (y.0) (x.1) (y.1) (
        sym (after_tag r i (x.0))
        ∙ sym (ap Item.tag (x.2))
        ∙ t
        ∙ ap Item.tag (y.2)
        ∙ after_tag r j (y.0));
}
  where
    r : Range
    r = let u = st.unique_range in record { start = max u.start disable_start; end = u.end }

    left :
        (i : ℕ) (a : Item)
        → get_elem? st.borrows i ≡ some a
        → (let u = st.unique_range in
            let b = after (record { start = max u.start disable_start; end = u.end }) i a in
            b.perm ≡ Permission.unique)
        → let n = truncate_range disable_start st.unique_range in (n.start ≤ i) × (i < n.end)
    left i a e u = elim (Bool-cases (hits r i a)) [
      | inl h ↦ absurd (
          disabled_not_unique
            (subst (λ t. Item.perm (if t then disabled_item a else a) ≡ Permission.unique) h u))
      | inr h ↦
          let p : a.perm ≡ Permission.unique =
            subst (λ t. Item.perm (if t then disabled_item a else a) ≡ Permission.unique) h u in
          let b = v.uniques i a e p in
          unique_left st.unique_range disable_start i (is_unique_perm a.perm) (unique_test a.perm p)
            h (b.0) (b.1)
    ]
