-- ===== src/StackedBorrows/Uniques.antt =====
-- stack.rs: the unique items of a stack after some are disabled.
use miri.Base.{
  ℕ, ◌≤◌, ◌≡◌, refl, sym, ◌∙◌, ap, subst, Bool, true, false, ◌&&◌, leb, if◌then◌else◌, Option, none,
  some, List, length, get_elem?, arith, Bool-cases, inl, inr, Returns, max,
}
use miri.StackedBorrows.Stack.{Permission, is_unique_perm, Item, Cached, Range, Stack}
use miri.StackedBorrows.Disable.{
  disabled_item, hits, disable_from, with_disabled, disable_range, truncated,
  disable_uniques_starting_at,
}
use miri.StackedBorrows.Valid.{IsValid}
use miri.StackedBorrows.Disabled.{LoopResult, disable_from-LoopResult}
use miri.StackedBorrows.Loop.{test-unique, items_at, truncated_bounds, after_loop-IsValid}

-- what becomes of an item
abbrev pub disabled_above : ℕ → ℕ → Item → Item
disabled_above disable_start j a =
    if leb disable_start j && is_unique_perm a.perm then disabled_item a else a

-- The visitor has refused a unique item, or all from the index on are disabled.
abbrev pub DisableSpec : ℕ → (Item → Bool) → Stack → Option Stack → Type 0
DisableSpec disable_start visitor st none =
    (j : ℕ) × (a : Item) × (get_elem? st.borrows j ≡ some a)
    × (disable_start ≤ j)
    × (a.perm ≡ Permission.unique)
    × (visitor a ≡ false)
DisableSpec disable_start visitor st (some st') =
    IsValid st'
    × (length st'.borrows ≡ length st.borrows)
    × ((j : ℕ) (a : Item)
        → get_elem? st.borrows j ≡ some a
        → get_elem? st'.borrows j ≡ some (disabled_above disable_start j a))

-- in a valid stack the range does not matter
same_items :
    (st : Stack) (disable_start j : ℕ) (a : Item)
    → IsValid st
    → get_elem? st.borrows j ≡ some a
    → let u = st.unique_range in
      hits (record { start = max u.start disable_start; end = u.end }) j a
      ≡ (leb disable_start j && is_unique_perm a.perm)
same_items st disable_start j a v e = elim (Bool-cases (is_unique_perm a.perm)) [
  | inl t ↦ ground (arith, t, v.uniques j a e (test-unique a.perm t))
  | inr n ↦ ground (arith, n)
]

looped_spec :
    (st : Stack) (disable_start : ℕ) (visitor : Item → Bool) (o : Option (List Item × List Cached))
    → IsValid st
    → let u = st.unique_range in
      LoopResult 0
        (record { start = max u.start disable_start; end = u.end })
        visitor
        st.borrows
        st.cache
        o
      → DisableSpec disable_start visitor st (truncated disable_start (with_disabled st o))
looped_spec st disable_start visitor none v (j, a, e, h, t) =
    let u = st.unique_range in
    let r : Range = record { start = max u.start disable_start; end = u.end } in
    let q : hits r j a ≡ true = subst (λ m. hits r m a ≡ true) (omega arith) h in
    (j, a, e, ground (arith, q), test-unique a.perm (ground (arith, q)), t)
looped_spec st disable_start visitor (some (l', cache')) v k = (
  after_loop-IsValid st disable_start l' cache' v k,
  k.same_length,
  λ j a e.
      items_at _ st.borrows l' st.cache cache' k j a e
      ∙ ap (λ t. some (if t then disabled_item a else a)) (same_items st disable_start j a v e),
)

untouched :
    (st : Stack) (disable_start j : ℕ) (a : Item)
    → IsValid st
    → get_elem? st.borrows j ≡ some a
    → (let u = st.unique_range in leb disable_start u.end ≡ false)
    → (leb disable_start j && is_unique_perm a.perm) ≡ false
untouched st disable_start j a v e n = elim (Bool-cases (is_unique_perm a.perm)) [
  | inl t ↦ ground (arith, t, n, v.uniques j a e (test-unique a.perm t))
  | inr f ↦ ground (arith, f)
]

-- where no unique item is so high
nothing_above :
    (st : Stack) (disable_start : ℕ) (visitor : Item → Bool)
    → IsValid st
    → (let u = st.unique_range in leb disable_start u.end ≡ false)
    → DisableSpec disable_start visitor st (truncated disable_start (some st))
nothing_above st disable_start visitor v n = (
  record {
    cached = v.cached;
    size = v.size;
    uniques = λ i a e p. ground (arith, v.uniques i a e p, n);
    range =
        truncated_bounds st.unique_range disable_start (length st.borrows) (v.range.0) (v.range.1);
    distinct = v.distinct;
  },
  refl,
  λ j a e.
      e
      ∙ ap (λ t. some (if t then disabled_item a else a))
          (sym (untouched st disable_start j a v e n)),
)

-- Disabling the unique items of a valid stack from an index on does not panic. The visitor refuses
-- such an item, or exactly these are disabled, and the stack, with its cache and its range of unique
-- items, is valid.
pub disable_uniques_starting_at_lem :
    (st : Stack) (disable_start : ℕ) (visitor : Item → Bool)
    → IsValid st
    → Returns
        (disable_uniques_starting_at disable_start visitor st)
        (DisableSpec disable_start visitor st)
unfolding disable_uniques_starting_at disable_range
disable_uniques_starting_at_lem st disable_start visitor v =
    let u = st.unique_range in
    elim (Bool-cases (leb disable_start u.end)) [
      | inr n ↦ rw (n) (nothing_above st disable_start visitor v n)
      | inl b ↦
          let r : Range = record { start = max u.start disable_start; end = u.end } in
          let ok : (leb r.start r.end && leb r.end (length st.borrows)) ≡ true =
            ground (arith, b, v.range) in
          rw (b, ok)
            (looped_spec st disable_start visitor (disable_from 0 r visitor st.borrows st.cache) v
              (disable_from-LoopResult 0 r visitor st.borrows st.cache))
    ]
