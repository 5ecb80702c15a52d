-- ===== src/RangeObjectMap.antt =====
-- src/data_structures/range_object_map.rs: objects at ranges of an allocation. A range is its start
-- and size; the ends of stored ranges are 64-bit numbers, since they lie in an allocation. Out of
-- range, removal panics as `Vec` does.
pub mod Search
pub mod Access
pub mod Insert
pub mod Remove
mod Tests
use miri.Base.{
  ℕ, zero, suc, ◌+◌, ◌-◌, ◌^◌, Bool, true, false, ◌&&◌, ltb, leb, ◌==◌, if◌then◌else◌, List, [],
  ◌∷◌, ◌++◌, length, take, drop, get_elem?, Option, none, some, Outcome, panic, ret, ◌>>=◌, ◌>>◌,
  assert,
}

-- `AllocRange`
pub record AllocRange : Type 0 where
  pub start : ℕ
  pub size : ℕ

abbrev pub u64_mod : ℕ
u64_mod = 2 ^ 64

-- `AllocRange::end`, exclusive
abbrev pub end : AllocRange → ℕ
end r = r.start + r.size

-- `range.end() - Size::from_bytes(1)`, both operations checked
abbrev pub last_offset : AllocRange → Outcome ℕ
last_offset r =
    if ltb (end r) u64_mod then (if end r == 0 then panic else ret (end r - 1)) else panic

pub record Elem (T : Type 0) : Type 0 where
  pub range : AllocRange
  pub object : T

-- `Result<Position, Position>`
pub data Found : Type 0 where
  inside : ℕ → Found
  outside : ℕ → Found

pub data AccessType : Type 0 where
  perfectly_overlapping : ℕ → AccessType
  empty : ℕ → AccessType
  imperfectly_overlapping : ℕ → ℕ → AccessType

abbrev pub next : Found → Found
next (inside pos) = inside (suc pos)
next (outside pos) = outside (suc pos)

-- where a range that begins outside of all objects ends
unfoldable pub from_outside : ℕ → Found → AccessType
from_outside pos (outside end_pos) =
    if pos == end_pos then empty pos else imperfectly_overlapping pos end_pos
from_outside pos (inside end_pos) = imperfectly_overlapping pos (end_pos + 1)

-- where a range that begins inside of an object ends
unfoldable pub from_inside : ℕ → Found → AccessType
from_inside pos (inside inclusive_pos) = imperfectly_overlapping pos (inclusive_pos + 1)
from_inside pos (outside exclusive_pos) = imperfectly_overlapping pos exclusive_pos

module _ {T : Type 0} where
  -- `binary_search_by`: the element that holds the offset, or else where it would be inserted, on a
  -- list of ranges in order
  unfoldable pub find_offset : List (Elem T) → ℕ → Found
  find_offset [] offset = outside 0
  find_offset (e ∷ v) offset =
      let rest = find_offset v offset in
      if ltb offset e.range.start
      then outside 0
      else (if leb (end e.range) offset then next rest else inside 0)

  -- `self.v[pos]` and the test for the happy case
  unfoldable pub access_inside :
      List (Elem T) → AllocRange → ℕ → Option (Elem T) → Outcome AccessType
  unfolding find_offset from_inside
  access_inside v range pos none = panic
  access_inside v range pos (some e) =
      if (e.range.start == range.start) && (e.range.size == range.size)
      then ret (perfectly_overlapping pos)
      else (last_offset range >>= λ last. ret (from_inside pos (find_offset v last)))

  unfoldable pub access_at : List (Elem T) → AllocRange → Found → Outcome AccessType
  unfolding access_inside from_outside find_offset
  access_at v range (inside pos) = access_inside v range pos (get_elem? v pos)
  access_at v range (outside pos) =
      last_offset range >>= λ last. ret (from_outside pos (find_offset v last))

  unfoldable pub access_type : List (Elem T) → AllocRange → Outcome AccessType
  unfolding access_at
  access_type v range = access_at v range (find_offset v range.start)

  -- `Vec::insert`
  unfoldable pub insert : List (Elem T) → ℕ → Elem T → Outcome (List (Elem T))
  insert v zero x = ret (x ∷ v)
  insert [] (suc pos) x = panic
  insert (e ∷ v) (suc pos) x = insert v pos x >>= λ w. ret (e ∷ w)

  -- the range of the element before the position, if there is one, ends at or below `offset`
  abbrev pub ends_before : Option (Elem T) → ℕ → Outcome (Unit {0})
  ends_before none offset = panic
  ends_before (some e) offset = assert (leb (end e.range) offset)

  abbrev pub starts_after : Option (Elem T) → ℕ → Outcome (Unit {0})
  starts_after none offset = panic
  starts_after (some e) offset = assert (leb offset e.range.start)

  unfoldable pub insert_at_pos : List (Elem T) → ℕ → AllocRange → T → Outcome (List (Elem T))
  unfolding insert
  insert_at_pos v pos range object = do
    w ← insert v pos (record { range = range; object = object })
    if ltb 0 pos then ends_before (get_elem? w (pos - 1)) range.start else ret tt
    if ltb pos (length w - 1) then starts_after (get_elem? w (pos + 1)) (end range) else ret tt
    ret w

  -- `Vec::drain` of a range of positions
  unfoldable pub remove_pos_range : List (Elem T) → ℕ → ℕ → Outcome (List (Elem T))
  remove_pos_range v first last =
      if leb first last && leb last (length v) then ret (take first v ++ drop last v) else panic

  -- `Vec::remove`
  unfoldable pub remove_from_pos : List (Elem T) → ℕ → Outcome (List (Elem T))
  remove_from_pos v pos = if ltb pos (length v) then ret (take pos v ++ drop (suc pos) v) else panic
