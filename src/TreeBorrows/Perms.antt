-- ===== src/TreeBorrows/Perms.antt =====
-- src/borrow_tracker/tree_borrows/perms.rs: the permission state machine of Tree Borrows, with the
-- access kinds of borrow_tracker/mod.rs, AccessRelatedness of tree.rs, and the levels of access that
-- foreign_access_skipping.rs and wildcard.rs order.
pub mod Laws
pub mod Order
use Prim.Native.Nat.{Ordering}
use miri.Base.{
  Bool, true, false, not, ◌&&◌, Option, none, some, Outcome, panic, ret, ◌>>=◌, ◌>>◌, assert,
  map_outcome, if◌then◌else◌, bool_eq, ℕ, leb,
}

pub data AccessKind : Type 0 where
  read write : AccessKind

-- the derived `==`, against `Read`
abbrev pub is_read : AccessKind → Bool
is_read read = true
is_read write = false

pub data AccessRelatedness : Type 0 where
  foreign_access local_access : AccessRelatedness

abbrev pub is_foreign : AccessRelatedness → Bool
is_foreign foreign_access = true
is_foreign local_access = false

pub data PermissionPriv : Type 0 where
  cell : PermissionPriv
  reserved_frz : Bool → PermissionPriv
  reserved_im unique frozen disabled : PermissionPriv

-- the derived `==`
abbrev pub same : PermissionPriv → PermissionPriv → Bool
same cell cell = true
same (reserved_frz c) (reserved_frz d) = bool_eq c d
same reserved_im reserved_im = true
same unique unique = true
same frozen frozen = true
same disabled disabled = true
same _ _ = false

-- `Ord for bool`
abbrev bool_cmp : Bool → Bool → Ordering
bool_cmp false true = Ordering.lt
bool_cmp true false = Ordering.gt
bool_cmp _ _ = Ordering.eq

-- the arms of the `match` that follow its first, `a == b`
cmp_arms : PermissionPriv → PermissionPriv → Option Ordering
cmp_arms reserved_im (reserved_frz _) = none
cmp_arms (reserved_frz _) reserved_im = none
cmp_arms cell _ = none
cmp_arms _ cell = none
cmp_arms disabled _ = some Ordering.gt
cmp_arms _ disabled = some Ordering.lt
cmp_arms frozen _ = some Ordering.gt
cmp_arms _ frozen = some Ordering.lt
cmp_arms unique _ = some Ordering.gt
cmp_arms _ unique = some Ordering.lt
cmp_arms reserved_im reserved_im = some Ordering.eq
cmp_arms (reserved_frz c) (reserved_frz d) = some (bool_cmp c d)

unfoldable pub partial_cmp : PermissionPriv → PermissionPriv → Option Ordering
unfolding cmp_arms
partial_cmp a b = if same a b then some Ordering.eq else cmp_arms a b

-- `a <= b`, as `PartialOrd` derives it from `partial_cmp`
unfoldable pub le : PermissionPriv → PermissionPriv → Bool
unfolding partial_cmp
le a b = elim (partial_cmp a b) [
  | some Ordering.lt ↦ true
  | some Ordering.eq ↦ true
  | some Ordering.gt ↦ false
  | none ↦ false
]

unfoldable pub is_initial : PermissionPriv → Bool
is_initial (reserved_frz false) = true
is_initial frozen = true
is_initial reserved_im = true
is_initial cell = true
is_initial unique = true
is_initial _ = false

unfoldable pub compatible_with_protector : PermissionPriv → Bool
compatible_with_protector reserved_im = false
compatible_with_protector cell = false
compatible_with_protector _ = true

-- `none` is undefined behaviour; a panic is a failed `assert!`
unfoldable pub child_read : PermissionPriv → Bool → Outcome (Option PermissionPriv)
child_read disabled protected = ret none
child_read p protected = ret (some p)

unfoldable pub foreign_read : PermissionPriv → Bool → Outcome (Option PermissionPriv)
foreign_read cell protected = ret (some cell)
foreign_read frozen protected = ret (some frozen)
foreign_read disabled protected = ret (some disabled)
foreign_read (reserved_frz c) true = ret (some (reserved_frz true))
foreign_read (reserved_frz c) false = do assert (not false); ret (some (reserved_frz c))
foreign_read reserved_im protected = do assert (not protected); ret (some reserved_im)
foreign_read unique protected = ret (some (if protected then disabled else frozen))

unfoldable pub child_write : PermissionPriv → Bool → Outcome (Option PermissionPriv)
child_write cell protected = ret (some cell)
child_write (reserved_frz true) true = ret none
child_write (reserved_frz c) protected = ret (some unique)
child_write reserved_im protected = ret (some unique)
child_write unique protected = ret (some unique)
child_write frozen protected = ret none
child_write disabled protected = ret none

unfoldable pub foreign_write : PermissionPriv → Bool → Outcome (Option PermissionPriv)
foreign_write cell protected = ret (some cell)
foreign_write reserved_im protected = do assert (not protected); ret (some reserved_im)
foreign_write p protected = ret (some disabled)

unfoldable pub transition :
    AccessKind → AccessRelatedness → PermissionPriv → Bool → Outcome (Option PermissionPriv)
unfolding child_read foreign_read child_write foreign_write
transition write foreign_access child protected = foreign_write child protected
transition read foreign_access child protected = foreign_read child protected
transition write local_access child protected = child_write child protected
transition read local_access child protected = child_read child protected

-- `Permission` wraps `PermissionPriv` in a private field; the two are one type here.
pub record PermTransition : Type 0 where
  pub from : PermissionPriv
  pub to : PermissionPriv

-- `Option::map` over an outcome
record_transition : PermissionPriv → Option PermissionPriv → Option PermTransition
record_transition old none = none
record_transition old (some new) = some (record { from = old; to = new })

-- `Permission::perform_access`
unfoldable pub perform_access :
    AccessKind → AccessRelatedness → PermissionPriv → Bool → Outcome (Option PermTransition)
unfolding transition record_transition
perform_access kind rel old protected =
    map_outcome (record_transition old) (transition kind rel old protected)

unfoldable pub is_possible : PermTransition → Bool
unfolding le
is_possible t = le t.from t.to

unfoldable pub is_noop : PermTransition → Bool
is_noop t = same t.from t.to

unfoldable pub applied : PermTransition → PermissionPriv → Option PermissionPriv
applied t start = if same start t.from then some t.to else none

unfoldable pub produces_disabled : PermTransition → Bool
produces_disabled t = same t.to disabled

unfoldable pub is_disabled : PermissionPriv → Bool
is_disabled p = same p disabled

unfoldable pub is_frozen : PermissionPriv → Bool
is_frozen p = same p frozen

unfoldable pub is_cell : PermissionPriv → Bool
is_cell p = same p cell

unfoldable pub is_unique : PermissionPriv → Bool
is_unique p = same p unique

unfoldable pub associated_access : PermissionPriv → Option AccessKind
associated_access cell = none
associated_access unique = some write
associated_access _ = some read

unfoldable pub can_be_replaced_by_child : PermissionPriv → PermissionPriv → Bool
can_be_replaced_by_child cell _ = true
can_be_replaced_by_child _ cell = false
can_be_replaced_by_child reserved_im _ = true
can_be_replaced_by_child _ reserved_im = false
can_be_replaced_by_child (reserved_frz _) _ = true
can_be_replaced_by_child _ (reserved_frz _) = false
can_be_replaced_by_child unique unique = true
can_be_replaced_by_child unique frozen = true
can_be_replaced_by_child unique disabled = true
can_be_replaced_by_child _ unique = false
can_be_replaced_by_child frozen frozen = true
can_be_replaced_by_child frozen disabled = true
can_be_replaced_by_child _ frozen = false
can_be_replaced_by_child disabled disabled = true

-- `IdempotentForeignAccess` of foreign_access_skipping.rs, ordered none < read < write
pub data IdempotentForeignAccess : Type 0 where
  no_access skip_read skip_write : IdempotentForeignAccess

-- the position in the derived order
abbrev pub rank : IdempotentForeignAccess → ℕ
rank no_access = 0
rank skip_read = 1
rank skip_write = 2

unfoldable pub strongest_idempotent_foreign_access :
    PermissionPriv → Bool → Outcome IdempotentForeignAccess
strongest_idempotent_foreign_access cell prot = ret skip_write
strongest_idempotent_foreign_access (reserved_frz false) true = ret no_access
strongest_idempotent_foreign_access (reserved_frz c) prot = ret skip_read
strongest_idempotent_foreign_access reserved_im true = panic
strongest_idempotent_foreign_access reserved_im false = ret skip_write
strongest_idempotent_foreign_access unique prot = ret no_access
strongest_idempotent_foreign_access frozen prot = ret skip_read
strongest_idempotent_foreign_access disabled prot = ret skip_write

-- `WildcardAccessLevel` of wildcard.rs, ordered none < read < write
pub data WildcardAccessLevel : Type 0 where
  no_level read_level write_level : WildcardAccessLevel

abbrev pub level_rank : WildcardAccessLevel → ℕ
level_rank no_level = 0
level_rank read_level = 1
level_rank write_level = 2

-- `WildcardAccessLevel::allows`
unfoldable pub allows : WildcardAccessLevel → AccessKind → Bool
allows level read = leb (level_rank read_level) (level_rank level)
allows level write = leb (level_rank write_level) (level_rank level)

unfoldable pub strongest_allowed_local_access : PermissionPriv → Bool → WildcardAccessLevel
strongest_allowed_local_access disabled protected = no_level
strongest_allowed_local_access frozen protected = read_level
strongest_allowed_local_access (reserved_frz true) true = read_level
strongest_allowed_local_access _ _ = write_level
