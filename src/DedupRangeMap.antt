-- ===== src/DedupRangeMap.antt =====
-- src/data_structures/dedup_range_map.rs: a map from the offsets of an allocation to data that stores
-- one element for a range of offsets. An index out of range, a failed assertion and an overflow of
-- `u64` panic. What `iter_mut` yields is a slice of the elements beside those before and after it,
-- so that a caller's writes to the slice are writes to the map.
pub mod Lookup
pub mod Split
pub mod Block
pub mod Scan
pub mod Loop
pub mod Reach
pub mod ScanLoop
pub mod Slice
pub mod IterMut
pub mod Update
pub mod Iter
pub mod Merge
mod Tests
use miri.Base.{
  ℕ, zero, suc, ◌+◌, ◌-◌, ◌^◌, Bool, true, false, ◌&&◌, ◌||◌, not, ltb, leb, ◌==◌, if◌then◌else◌,
  List, [], ◌∷◌, ◌++◌, length, take, drop, get_elem?, set_elem, Option, none, some, Outcome, panic,
  ret, ◌>>=◌, ◌>>◌, assert, unwrap,
}

-- `ops::Range<u64>`
pub record Range : Type 0 where
  pub start : ℕ
  pub end : ℕ

-- `value` is the field `data`
pub record Elem (T : Type 0) : Type 0 where
  pub range : Range
  pub value : T

abbrev pub u64_mod : ℕ
u64_mod = 2 ^ 64

-- `a + b` on `u64`
abbrev pub add_u64 : ℕ → ℕ → Outcome ℕ
add_u64 a b = if ltb (a + b) u64_mod then ret (a + b) else panic

-- `a - b` on `usize`
abbrev pub sub_usize : ℕ → ℕ → Outcome ℕ
sub_usize a b = if leb b a then ret (a - b) else panic

-- the map after `split_index`, and whether a split was necessary
pub record Splitting (T : Type 0) : Type 0 where
  pub was_split : Bool
  pub elems : List (Elem T)

-- the variables of the scan for the end
pub record ScanState (T : Type 0) : Type 0 where
  pub elems : List (Elem T)
  pub equal_since_idx : ℕ
  pub end_idx : ℕ
  pub successful_merge_count : ℕ

-- `&mut self.v[first_idx..=end_idx]`, and the elements around it
pub record SliceMut (T : Type 0) : Type 0 where
  pub before : List (Elem T)
  pub slice : List (Elem T)
  pub after : List (Elem T)

module _ {T : Type 0} where
  unfoldable pub new : ℕ → T → List (Elem T)
  new size init =
      if ltb 0 size
      then record { range = record { start = 0; end = size }; value = init } ∷ []
      else []

  -- `self.v.last().map(|x| x.range.end).unwrap_or(0)`
  unfoldable pub size : List (Elem T) → ℕ
  size [] = 0
  size (x ∷ []) = x.range.end
  size (x ∷ y ∷ v) = size (y ∷ v)

  -- `binary_search_by(..).unwrap()`, on a list of ranges in order
  unfoldable pub find_offset : List (Elem T) → ℕ → Outcome ℕ
  find_offset [] offset = panic
  find_offset (e ∷ v) offset =
      let rest = find_offset v offset in
      if ltb offset e.range.start
      then panic
      else (if leb e.range.end offset then (rest >>= λ i. ret (suc i)) else ret 0)

  -- `take_while(move |elem| elem.range.start < end)`
  unfoldable pub take_while_before : ℕ → List (Elem T) → List (Elem T)
  take_while_before end [] = []
  take_while_before end (e ∷ v) =
      let rest = take_while_before end v in if ltb e.range.start end then e ∷ rest else []

  unfoldable pub iter : List (Elem T) → ℕ → ℕ → Outcome (List (Elem T))
  unfolding find_offset take_while_before size
  iter v offset len = do
    slice ←
        if len == 0 then ret [] else (find_offset v offset >>= λ first_idx. ret (drop first_idx v))
    end ← add_u64 offset len
    assert (leb end (size v))
    ret (take_while_before end slice)

  abbrev pub with_end : Elem T → ℕ → Elem T
  with_end e end = record { range = record { start = e.range.start; end = end }; value = e.value }

  abbrev pub with_start : Elem T → ℕ → Elem T
  with_start e start = record {
    range = record { start = start; end = e.range.end };
    value = e.value;
  }

  -- `Vec::insert`, at a position that is in range
  abbrev pub insert_elem : List (Elem T) → ℕ → Elem T → List (Elem T)
  insert_elem v index x = take index v ++ (x ∷ drop index v)

  unfoldable pub split_elem : List (Elem T) → ℕ → Elem T → ℕ → Outcome (Splitting T)
  split_elem v index elem split_offset =
      if (split_offset == elem.range.start) || (split_offset == elem.range.end)
      then ret (record { was_split = false; elems = v })
      else (do
        assert (leb elem.range.start split_offset && ltb split_offset elem.range.end)
        let w = set_elem v index (with_end elem split_offset)
        ret (record {
          was_split = true;
          elems = insert_elem w (suc index) (with_start elem split_offset);
        }))

  unfoldable pub split_index : List (Elem T) → ℕ → ℕ → Outcome (Splitting T)
  unfolding split_elem
  split_index v index split_offset =
      unwrap (get_elem? v index) >>= λ elem. split_elem v index elem split_offset

  -- the block is more than one element, which the first one comes to cover
  abbrev pub remove_block : ScanState T → ℕ → Elem T → Elem T → ScanState T
  remove_block s removed_elems first last = record {
    elems =
        (let v = set_elem s.elems s.equal_since_idx (with_end first last.range.end) in
          take (suc s.equal_since_idx) v ++ drop s.end_idx v);
    equal_since_idx = s.end_idx - removed_elems;
    end_idx = s.end_idx - removed_elems;
    successful_merge_count = s.successful_merge_count + removed_elems;
  }

  abbrev pub keep_block : ScanState T → ScanState T
  keep_block s = record {
    elems = s.elems;
    equal_since_idx = s.end_idx;
    end_idx = s.end_idx;
    successful_merge_count = s.successful_merge_count - 1;
  }

  -- one element in place of those from `equal_since_idx` up to but not including `end_idx`
  unfoldable pub merge_block : ScanState T → Outcome (ScanState T)
  merge_block s = do
    count ← sub_usize s.end_idx s.equal_since_idx
    removed_elems ← sub_usize count 1
    last ← unwrap (get_elem? s.elems (s.end_idx - 1))
    first ← unwrap (get_elem? s.elems s.equal_since_idx)
    ret (if ltb 0 removed_elems then remove_block s removed_elems first last else keep_block s)

  -- `done || self.v[end_idx].data != self.v[equal_since_idx].data`
  unfoldable pub block_ends : (T → T → Bool) → Bool → ScanState T → Outcome Bool
  block_ends eq true s = ret true
  block_ends eq false s = do
    x ← unwrap (get_elem? s.elems s.end_idx)
    y ← unwrap (get_elem? s.elems s.equal_since_idx)
    ret (not (eq x.value y.value))

  unfoldable pub merge_if : Bool → ScanState T → Outcome (ScanState T)
  unfolding merge_block
  merge_if true s = merge_block s
  merge_if false s = ret s

  unfoldable pub try_merge : (T → T → Bool) → Bool → ScanState T → Outcome (ScanState T)
  unfolding merge_if block_ends
  try_merge eq done s =
      if ltb 0 s.successful_merge_count
      then (block_ends eq done s >>= λ ends. merge_if ends s)
      else ret s

  abbrev pub advance : ScanState T → ScanState T
  advance s = record {
    elems = s.elems;
    equal_since_idx = s.equal_since_idx;
    end_idx = suc s.end_idx;
    successful_merge_count = s.successful_merge_count;
  }

  -- one round of the loop, for the element at `end_idx`
  unfoldable pub scan_round : (T → T → Bool) → ℕ → Elem T → ScanState T → Outcome (ScanState T)
  unfolding try_merge
  scan_round eq end e s =
      assert (leb end e.range.end || ltb (suc s.end_idx) (length s.elems))
      >> try_merge eq (leb end e.range.end) (advance s)

  unfoldable pub scan_loop : ℕ → (T → T → Bool) → ℕ → ScanState T → Outcome (ScanState T)
  unfolding scan_round
  scan_loop zero eq end s = panic
  scan_loop (suc fuel) eq end s = do
    e ← unwrap (get_elem? s.elems s.end_idx)
    t ← scan_round eq end e s
    let rest = scan_loop fuel eq end t
    if leb end e.range.end then ret t else rest

  abbrev pub start_scan : List (Elem T) → ℕ → ScanState T
  start_scan v first_idx = record {
    elems = v;
    equal_since_idx = first_idx;
    end_idx = first_idx;
    successful_merge_count = 3;
  }

  abbrev pub slice_mut : ℕ → ℕ → List (Elem T) → SliceMut T
  slice_mut first_idx end_idx w = record {
    before = take first_idx w;
    slice = drop first_idx (take (suc end_idx) w);
    after = drop (suc end_idx) w;
  }

  -- the split at the end that the scan has found, and the slice
  unfoldable pub slice_to : ℕ → ℕ → ScanState T → Outcome (SliceMut T)
  unfolding split_index
  slice_to first_idx end s = do
    end_idx ← sub_usize s.end_idx 1
    cut ← split_index s.elems end_idx end
    ret (slice_mut first_idx end_idx cut.elems)

  unfoldable pub iter_mut_from : (T → T → Bool) → List (Elem T) → ℕ → ℕ → Outcome (SliceMut T)
  unfolding scan_loop slice_to
  iter_mut_from eq v first_idx end =
      scan_loop (length v) eq end (start_scan v first_idx) >>= λ s. slice_to first_idx end s

  abbrev pub first_of : Splitting T → ℕ → ℕ
  first_of cut first_idx = if cut.was_split then suc first_idx else first_idx

  unfoldable pub iter_mut : (T → T → Bool) → List (Elem T) → ℕ → ℕ → Outcome (SliceMut T)
  unfolding iter_mut_from split_index find_offset
  iter_mut eq v offset len =
      if len == 0 then ret (record { before = v; slice = []; after = [] }) else (do
        first_idx ← find_offset v offset
        cut ← split_index v first_idx offset
        end ← add_u64 offset len
        iter_mut_from eq cut.elems (first_of cut first_idx) end)

  abbrev pub whole : SliceMut T → List (Elem T)
  whole s = s.before ++ (s.slice ++ s.after)

  -- the loop body of `merge_adjacent_thorough`, on what is merged so far
  unfoldable pub merge_next : (T → T → Bool) → List (Elem T) → Elem T → Outcome (List (Elem T))
  merge_next eq [] elem = ret (elem ∷ [])
  merge_next eq (prev ∷ []) elem =
      if eq prev.value elem.value
      then (assert (prev.range.end == elem.range.start) >> ret (with_end prev elem.range.end ∷ []))
      else ret (prev ∷ elem ∷ [])
  merge_next eq (x ∷ y ∷ v) elem = merge_next eq (y ∷ v) elem >>= λ w. ret (x ∷ w)

  unfoldable pub merge_all :
      (T → T → Bool) → List (Elem T) → List (Elem T) → Outcome (List (Elem T))
  unfolding merge_next
  merge_all eq v [] = ret v
  merge_all eq v (elem ∷ elems) = merge_next eq v elem >>= λ w. merge_all eq w elems

  unfoldable pub merge_adjacent_thorough : (T → T → Bool) → List (Elem T) → Outcome (List (Elem T))
  unfolding merge_all
  merge_adjacent_thorough eq v = merge_all eq [] v
