-- ===== src/DedupRangeMap/Tests.antt =====
-- dedup_range_map.rs: its tests `basic_insert` and `gaps`, with -1 as 0, and instances of the
-- theorems.
use miri.Base.{
  ℕ, ◌+◌, ◌&&◌, leb, true, ◌≡◌, refl, ◌==◌, if◌then◌else◌, ltb, List, [], ◌∷◌, Outcome, ret, panic,
  ◌>>=◌, Returns, arith,
}
use miri.DedupRangeMap.{
  Elem, iter_mut, merge_adjacent_thorough, find_offset, split_elem, split_index, merge_block,
  block_ends, merge_if, try_merge, scan_round, scan_loop, slice_to, iter_mut_from,
}
use miri.DedupRangeMap.Lookup.{lookup, IsContiguous}
use miri.DedupRangeMap.Update.{map_data, write_slice, iter_mut-write}
use miri.DedupRangeMap.IterMut.{iter_mut_lem}
use miri.DedupRangeMap.Slice.{IsSlice}
use miri.DedupRangeMap.Merge.{IsMerged, merge_adjacent_thorough_lem}

sound : (x y : ℕ) → (x == y) ≡ true → x ≡ y
sound x y h = ground arith

abbrev elem : ℕ → ℕ → ℕ → Elem ℕ
elem start end value = record { range = record { start = start; end = end }; value = value }

-- `for (_, x) in map.iter_mut(offset, len) { *x = f(x) }`
abbrev update : (ℕ → ℕ) → ℕ → ℕ → List (Elem ℕ) → Outcome (List (Elem ℕ))
update f offset len v = iter_mut ◌==◌ v offset len >>= λ s. ret (write_slice f s)

-- The map of `gaps` before its last two accesses.
abbrev gaps : Outcome (List (Elem ℕ))
gaps = do
  a ← update (λ x. 42) 11 1 (elem 0 20 0 ∷ [])
  b ← update (λ x. 43) 15 1 a
  c ← update (λ x. if ltb x 42 then 23 else x) 10 10 b
  update (λ x. 19) 15 5 c

basic_insert :
    update (λ x. 42) 10 1 (elem 0 20 0 ∷ []) ≡ ret (elem 0 10 0 ∷ elem 10 11 42 ∷ elem 11 20 0 ∷ [])
unfolding iter_mut find_offset split_index split_elem iter_mut_from scan_loop scan_round try_merge
    block_ends merge_if merge_block slice_to
basic_insert = refl

gaps_write :
    gaps
    ≡ ret (
        elem 0 10 0
        ∷ elem 10 11 23
        ∷ elem 11 12 42
        ∷ elem 12 15 23
        ∷ elem 15 16 19
        ∷ elem 16 20 19
        ∷ [])
unfolding iter_mut find_offset split_index split_elem iter_mut_from scan_loop scan_round try_merge
    block_ends merge_if merge_block slice_to
gaps_write = refl

-- An access that writes nothing merges the two blocks with 19.
gaps_merge :
    gaps >>= update (λ x. x) 15 5
    ≡ ret (elem 0 10 0 ∷ elem 10 11 23 ∷ elem 11 12 42 ∷ elem 12 15 23 ∷ elem 15 20 19 ∷ [])
unfolding iter_mut find_offset split_index split_elem iter_mut_from scan_loop scan_round try_merge
    block_ends merge_if merge_block slice_to
gaps_merge = refl

out_of_range_iter_mut : update (λ x. x) 11 11 (elem 0 20 0 ∷ []) ≡ panic
unfolding iter_mut find_offset split_index split_elem iter_mut_from scan_loop scan_round try_merge
    block_ends merge_if merge_block slice_to
out_of_range_iter_mut = refl

-- three elements, two of them with the same data
abbrev three : List (Elem ℕ)
three = elem 0 4 7 ∷ elem 4 6 7 ∷ elem 6 9 8 ∷ []

iter_mut_example : Returns (iter_mut ◌==◌ three 2 5) (IsSlice (λ x. x) 2 7 9 three)
iter_mut_example =
    iter_mut_lem (λ x. x) ◌==◌ sound three 9 2 5 (omega arith) (omega arith) (omega arith)
      (omega arith)

iter_mut_write_example :
    Returns (iter_mut ◌==◌ three 2 5 >>= λ s. ret (write_slice (λ x. x + 1) s)) (λ w.
      IsContiguous 0 w 9
      × ((o : ℕ)
          → lookup (λ x. x) w o ≡ (
              if leb 2 o && ltb o 7
              then map_data (λ x. x + 1) (lookup (λ x. x) three o)
              else lookup (λ x. x) three o)))
iter_mut_write_example =
    iter_mut-write (λ x. x) ◌==◌ sound (λ x. x + 1) (λ x. x + 1) three 9 2 5 (λ x. refl)
      (omega arith) (omega arith) (omega arith)

merge_adjacent_example : Returns (merge_adjacent_thorough ◌==◌ three) (λ w.
    IsContiguous 0 w 9
    × ((o : ℕ) → lookup (λ x. x) w o ≡ lookup (λ x. x) three o)
    × IsMerged ◌==◌ w)
merge_adjacent_example = merge_adjacent_thorough_lem (λ x. x) ◌==◌ sound three 9 (omega arith)
