-- ===== src/StackedBorrows/Tests.antt =====
-- Runs of the borrow stack at concrete items.
use miri.Base.{
  Bool, ℕ, ◌+◌, ◌≡◌, ◌≢◌, false, some, [], ◌∷◌, get_elem?, length, Returns, arith, zero, suc,
}
use mathlib.Core.Option.{some-injective}
use miri.TreeBorrows.Perms.{AccessKind}
use miri.StackedBorrows.Stack.{Permission, Item, insert, new, find_granting_tagged}
use miri.StackedBorrows.Search.{Searched, find_granting_tagged_lem}
use miri.StackedBorrows.Valid.{IsValid}
use miri.StackedBorrows.Growing.{insert-IsValid, new-IsValid}
use miri.StackedBorrows.Disable.{disable_uniques_starting_at}
use miri.StackedBorrows.Uniques.{DisableSpec, disable_uniques_starting_at_lem}

abbrev root_item : Item
root_item = record { tag = 1; perm = Permission.unique; protected = false }

abbrev shared_item : Item
shared_item = record { tag = 2; perm = Permission.shared_read_write; protected = false }

is_fresh : (j : ℕ) (a : Item) → get_elem? (root_item ∷ []) j ≡ some a → a.tag ≢ 2
is_fresh zero a e p = ground (arith, p, some-injective root_item a e)
is_fresh (suc j) a e p = cc

insert-IsValid_example :
    Returns (insert 1 shared_item (new root_item)) λ st'.
      IsValid st' × (length st'.borrows ≡ 1 + 1) × (get_elem? st'.borrows 1 ≡ some shared_item)
unfolding new
insert-IsValid_example =
    insert-IsValid (new root_item) 1 shared_item (new-IsValid root_item) (omega arith) is_fresh

find_granting_tagged_lem_example :
    Searched AccessKind.write 1
      (new root_item)
      (find_granting_tagged AccessKind.write 1 (new root_item))
find_granting_tagged_lem_example =
    find_granting_tagged_lem AccessKind.write 1 (new root_item) (new-IsValid root_item)

abbrev never : Item → Bool
never item = false

disable_uniques_starting_at_lem_example :
    Returns
      (disable_uniques_starting_at 0 never (new root_item))
      (DisableSpec 0 never (new root_item))
disable_uniques_starting_at_lem_example =
    disable_uniques_starting_at_lem (new root_item) 0 never (new-IsValid root_item)
