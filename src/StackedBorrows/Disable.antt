-- ===== src/StackedBorrows/Disable.antt =====
-- stack.rs: `disable_uniques_starting_at`. `visitor` tells whether it returns without an error; an error
-- ends the operation, here with `none`.
use miri.Base.{
  ℕ, ◌+◌, Bool, not, ◌&&◌, ◌==◌, leb, ltb, if◌then◌else◌, Option, none, some, List, [], ◌∷◌, length,
  min, max, Outcome, panic, ret, ◌>>=◌,
}
use miri.StackedBorrows.Stack.{Permission, is_unique_perm, Item, Cached, Range, Stack}

-- `set_permission(Permission::Disabled)`
abbrev pub disabled_item : Item → Item
disabled_item item = record item { perm = Permission.disabled }

-- the copies of an item in the cache
abbrev pub disable_tag : ℕ → List Cached → List Cached
disable_tag tag [] = []
disable_tag tag (c ∷ l) =
    let item = c.item in
    record c { item = if item.tag == tag then disabled_item item else item } ∷ disable_tag tag l

abbrev pub hits : Range → ℕ → Item → Bool
hits r i item = leb r.start i && ltb i r.end && is_unique_perm item.perm

abbrev pub cons_to : Item → Option (List Item × List Cached) → Option (List Item × List Cached)
cons_to item none = none
cons_to item (some (l, cache)) = some (item ∷ l, cache)

-- the loop over `borrows[lower..upper]`, the range `r`, from the index `i` of the stack on
unfoldable pub disable_from :
    ℕ → Range → (Item → Bool) → List Item → List Cached → Option (List Item × List Cached)
disable_from i r visitor [] cache = some ([], cache)
disable_from i r visitor (item ∷ l) cache =
    let t = hits r i item in
    let rest = disable_from (i + 1) r visitor l (if t then disable_tag item.tag cache else cache) in
    if t && not (visitor item) then none else cons_to (if t then disabled_item item else item) rest

abbrev pub with_disabled : Stack → Option (List Item × List Cached) → Option Stack
with_disabled st none = none
with_disabled st (some (l, cache)) = some (record st { borrows = l; cache = cache })

-- a slice, which panics where it is not one of the stack
unfoldable pub disable_range : Range → (Item → Bool) → Stack → Outcome (Option Stack)
unfolding disable_from
disable_range r visitor st =
    if leb r.start r.end && leb r.end (length st.borrows)
    then ret (with_disabled st (disable_from 0 r visitor st.borrows st.cache))
    else panic

abbrev pub truncate_range : ℕ → Range → Range
truncate_range disable_start r =
    if leb disable_start r.start
    then record { start = 0; end = 0 }
    else record { start = r.start; end = min r.end disable_start }

abbrev pub truncated : ℕ → Option Stack → Option Stack
truncated disable_start none = none
truncated disable_start (some st) =
    some (record st { unique_range = truncate_range disable_start st.unique_range })

unfoldable pub disable_uniques_starting_at : ℕ → (Item → Bool) → Stack → Outcome (Option Stack)
unfolding disable_range
disable_uniques_starting_at disable_start visitor st =
    let r = st.unique_range in
    (if leb disable_start r.end
      then disable_range (record { start = max r.start disable_start; end = r.end }) visitor st
      else ret (some st))
    >>= λ o. ret (truncated disable_start o)
