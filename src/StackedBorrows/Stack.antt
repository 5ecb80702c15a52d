-- ===== src/StackedBorrows/Stack.antt =====
-- stack.rs: the stack, its cache, and the operations on both.
use miri.Base.{
  ℕ, ◌+◌, ◌-◌, Bool, true, false, ◌&&◌, ◌==◌, leb, ltb, if◌then◌else◌, Option, none, some, List, [],
  ◌∷◌, length, take, min, max, zero, suc, Outcome, panic, ret, ◌>>=◌,
}
use miri.TreeBorrows.Perms.{AccessKind}

pub data Permission : Type 0 where
  unique shared_read_write shared_read_only disabled : Permission

abbrev pub grants : Permission → AccessKind → Bool
grants Permission.disabled access = false
grants Permission.shared_read_only AccessKind.write = false
grants _ _ = true

abbrev pub is_unique_perm : Permission → Bool
is_unique_perm Permission.unique = true
is_unique_perm _ = false

pub record Item : Type 0 where
  pub tag : ℕ
  pub perm : Permission
  pub protected : Bool

pub data ProvenanceExtra : Type 0 where
  concrete : ℕ → ProvenanceExtra
  wildcard : ProvenanceExtra

-- an element of `items` and the element of `idx` at the same place
pub record Cached : Type 0 where
  pub item : Item
  pub idx : ℕ

pub record Range : Type 0 where
  pub start : ℕ
  pub end : ℕ

pub record Stack : Type 0 where
  pub borrows : List Item
  pub unknown_bottom : Option ℕ
  pub cache : List Cached
  pub unique_range : Range

abbrev pub cache_len : ℕ
cache_len = 32

abbrev pub is_empty : Range → Bool
is_empty r = leb r.end r.start

-- `StackCache::add`: the last element is lost
abbrev pub add : ℕ → Item → List Cached → List Cached
add idx item cache = record { item = item; idx = idx } ∷ take (cache_len - 1) cache

abbrev pub or_later : Bool → Cached → Option (ℕ × Cached) → Option (ℕ × Cached)
or_later true c o = some (0, c)
or_later false c none = none
or_later false c (some r) = some (suc (r.0), r.1)

-- `iter().position(...)`, with the element
unfoldable pub position : ℕ → List Cached → Option (ℕ × Cached)
position tag [] = none
position tag (c ∷ l) = let item = c.item in or_later (item.tag == tag) c (position tag l)

abbrev pub swap : List Cached → List Cached
swap [] = []
swap (a ∷ []) = a ∷ []
swap (a ∷ b ∷ l) = b ∷ a ∷ l

-- the entry that was found becomes the most recent one
unfoldable pub refresh : ℕ → Cached → List Cached → List Cached
refresh cache_idx c cache =
    if cache_idx == 1
    then swap cache
    else (if ltb 1 cache_idx then add c.idx c.item cache else cache)

-- what `find_granting_cache` does with the entry that it finds
abbrev pub use_cached : AccessKind → Stack → Option (ℕ × Cached) → Option ℕ × Stack
use_cached access st none = (none, st)
use_cached access st (some (cache_idx, c)) =
    let item = c.item in
    if grants item.perm access
    then (some c.idx, record st { cache = refresh cache_idx c st.cache })
    else (none, st)

unfoldable pub find_granting_cache : AccessKind → ℕ → Stack → Option ℕ × Stack
unfolding position refresh
find_granting_cache access tag st =
    if leb (length st.borrows) cache_len
    then (none, st)
    else use_cached access st (position tag st.cache)

-- an item that comes before the others, and the last of those with the property
abbrev pub or_above : Bool → Item → Option (ℕ × Item) → Option (ℕ × Item)
or_above t a (some r) = some (suc (r.0), r.1)
or_above true a none = some (0, a)
or_above false a none = none

-- `iter().enumerate().rev()`, up to the first item with the property
unfoldable pub rfind : (Item → Bool) → List Item → Option (ℕ × Item)
rfind test [] = none
rfind test (a ∷ l) = or_above (test a) a (rfind test l)

abbrev pub tagged : AccessKind → ℕ → Item → Bool
tagged access tag item = tag == item.tag && grants item.perm access

-- what the search of the whole stack finds is added to the cache
abbrev pub remember : Stack → Option (ℕ × Item) → Option ℕ × Stack
remember st none = (none, st)
remember st (some (idx, item)) = (some idx, record st { cache = add idx item st.cache })

abbrev pub or_search : AccessKind → ℕ → Option ℕ × Stack → Option ℕ × Stack
or_search access tag (some idx, st) = (some idx, st)
or_search access tag (none, st) = remember st (rfind (tagged access tag) st.borrows)

unfoldable pub find_granting_tagged : AccessKind → ℕ → Stack → Option ℕ × Stack
unfolding find_granting_cache rfind
find_granting_tagged access tag st = or_search access tag (find_granting_cache access tag st)

-- `Result<Option<usize>, ()>`: an index, the unknown bottom, or not found
pub data Granting : Type 0 where
  known : ℕ → Granting
  unknown : Granting
  not_found : Granting

-- an index, else the bottom if it may hold the item
abbrev pub known_or : Bool → Option ℕ → Granting
known_or bottom (some idx) = known idx
known_or true none = unknown
known_or false none = not_found

abbrev pub found_index : Option (ℕ × Item) → Option ℕ
found_index none = none
found_index (some r) = some (r.0)

abbrev pub below_limit : ℕ → Option ℕ → Bool
below_limit tag none = false
below_limit tag (some unknown_limit) = ltb tag unknown_limit

abbrev pub has_bottom : Option ℕ → Bool
has_bottom none = false
has_bottom (some _) = true

unfoldable pub find_granting : AccessKind → ProvenanceExtra → (ℕ → Bool) → Stack → Granting × Stack
unfolding find_granting_tagged rfind
find_granting access wildcard exposed_tags st = (
  known_or (has_bottom st.unknown_bottom)
      (found_index (rfind (λ item. grants item.perm access && exposed_tags item.tag) st.borrows)),
  st,
)
find_granting access (concrete tag) exposed_tags st =
    let r = find_granting_tagged access tag st in
    (known_or (below_limit tag st.unknown_bottom) (r.0), r.1)

-- `Vec::insert`, which panics beyond the end
unfoldable pub insert_at : ℕ → Item → List Item → Outcome (List Item)
insert_at zero new l = ret (new ∷ l)
insert_at (suc i) new [] = panic
insert_at (suc i) new (a ∷ l) = insert_at i new l >>= λ r. ret (a ∷ r)

abbrev pub shifted : ℕ → ℕ → ℕ
shifted new_idx i = if leb new_idx i then i + 1 else i

abbrev pub shift_range : ℕ → Range → Range
shift_range new_idx r = record { start = shifted new_idx r.start; end = shifted new_idx r.end }

abbrev pub include : ℕ → Range → Range
include new_idx r =
    if is_empty r
    then record { start = new_idx; end = new_idx + 1 }
    else record { start = min r.start new_idx; end = max r.end (new_idx + 1) }

abbrev pub shift_cache : ℕ → List Cached → List Cached
shift_cache new_idx [] = []
shift_cache new_idx (c ∷ l) = record c { idx = shifted new_idx c.idx } ∷ shift_cache new_idx l

-- `borrows` has the new item already
unfoldable pub insert_cache : ℕ → Item → Stack → Stack
insert_cache new_idx new st =
    let moved = shift_range new_idx st.unique_range in
    record st {
      unique_range = if is_unique_perm new.perm then include new_idx moved else moved;
      cache =
          add new_idx new
            (if new_idx == length st.borrows - 1 then st.cache else shift_cache new_idx st.cache);
    }

unfoldable pub insert : ℕ → Item → Stack → Outcome Stack
unfolding insert_at insert_cache
insert new_idx new st = insert_at new_idx new st.borrows >>= λ l.
    ret (insert_cache new_idx new (record st { borrows = l }))

abbrev pub repeated : ℕ → Item → List Cached
repeated zero item = []
repeated (suc n) item = record { item = item; idx = 0 } ∷ repeated n item

-- `Stack::new`
unfoldable pub new : Item → Stack
new item = record {
  borrows = item ∷ [];
  unknown_bottom = none;
  cache = repeated cache_len item;
  unique_range = record { start = 0; end = if is_unique_perm item.perm then 1 else 0 };
}

unfoldable pub set_unknown_bottom : ℕ → Stack → Stack
set_unknown_bottom tag st = record st {
  borrows = [];
  unknown_bottom = some tag;
  unique_range = record { start = 0; end = 0 };
}
