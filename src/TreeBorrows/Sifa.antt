-- ===== src/TreeBorrows/Sifa.antt =====
-- src/borrow_tracker/tree_borrows/foreign_access_skipping.rs: the methods of
-- `IdempotentForeignAccess`, in the order none < read < write.
use miri.Base.{
  Bool, true, false, not, ◌≤◌, ◌≡◌, ltb, leb, if◌then◌else◌, Outcome, ret, ◌>>◌, assert, arith,
}
use miri.TreeBorrows.Perms.{
  AccessKind, read, write, AccessRelatedness, is_foreign, IdempotentForeignAccess, no_access,
  skip_read, skip_write, rank,
}

unfoldable pub is_local : IdempotentForeignAccess → Bool
is_local no_access = true
is_local _ = false

-- The `debug_assert!` is `not (is_local next)`.
unfoldable pub can_skip_foreign_access :
    IdempotentForeignAccess → IdempotentForeignAccess → Outcome Bool
unfolding is_local
can_skip_foreign_access sifa next = do
  assert (not (is_local next))
  ret (leb (rank next) (rank sifa))

-- `Ord::max`: the second argument where the two are equal, which is then the same value
unfoldable pub max_access :
    IdempotentForeignAccess → IdempotentForeignAccess → IdempotentForeignAccess
max_access a b = if ltb (rank b) (rank a) then a else b

unfoldable pub record_new :
    IdempotentForeignAccess → IdempotentForeignAccess → IdempotentForeignAccess
unfolding is_local max_access
record_new sifa happened = if is_local happened then no_access else max_access happened sifa

unfoldable pub from_foreign : AccessKind → IdempotentForeignAccess
from_foreign read = skip_read
from_foreign write = skip_write

unfoldable pub from_acc_and_rel : AccessKind → AccessRelatedness → IdempotentForeignAccess
unfolding from_foreign
from_acc_and_rel acc rel = if is_foreign rel then from_foreign acc else no_access

-- the new value, and whether it changed
unfoldable pub ensure_no_stronger_than :
    IdempotentForeignAccess → IdempotentForeignAccess → IdempotentForeignAccess × Bool
ensure_no_stronger_than sifa allowed =
    if ltb (rank allowed) (rank sifa) then (allowed, true) else (sifa, false)

-- After `record_new` of a foreign access, that access can be skipped; and what could be skipped
-- before still can.
pub can_skip-record_new :
    (sifa : IdempotentForeignAccess) (kind : AccessKind)
    → let recorded = record_new sifa (from_foreign kind) in
      (can_skip_foreign_access recorded (from_foreign kind) ≡ ret true)
      × (rank sifa ≤ rank recorded)
unfolding record_new from_foreign can_skip_foreign_access
can_skip-record_new sifa kind = ground arith

-- `ensure_no_stronger_than` gives the lesser of the two, and says `true` exactly when it changed.
pub ensure_no_stronger_than_lem :
    (sifa allowed : IdempotentForeignAccess)
    → let (new, changed) = ensure_no_stronger_than sifa allowed in
      (rank new ≤ rank allowed) × (rank new ≤ rank sifa) × (changed ≡ ltb (rank new) (rank sifa))
unfolding ensure_no_stronger_than
ensure_no_stronger_than_lem sifa allowed = ground arith
