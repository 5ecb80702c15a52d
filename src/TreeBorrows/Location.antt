-- ===== src/TreeBorrows/Location.antt =====
-- src/borrow_tracker/tree_borrows/tree.rs: `LocationState`, the state of one tag at one location,
-- with `TransitionError` of diagnostics.rs and `ContinueTraversal` of tree_visitor.rs. A method
-- returns the new state beside its result, also where the result is an error, since the source
-- mutates before it returns. A `debug_assert!` counts as an `assert!`.
pub mod Laws
pub mod Compacting
pub mod Skipping
use miri.Base.{
  Bool, true, false, not, ◌&&◌, ◌||◌, Option, none, some, if◌then◌else◌, Outcome, panic, ret, ◌>>=◌,
  ◌>>◌, assert,
}
use miri.TreeBorrows.Perms.{
  AccessKind, read, write, AccessRelatedness, foreign_access, local_access, is_foreign, is_read,
  PermissionPriv, is_initial, is_disabled, is_unique, is_frozen, PermTransition, is_noop, applied,
  produces_disabled, IdempotentForeignAccess, WildcardAccessLevel, strongest_allowed_local_access,
}
use miri.TreeBorrows.Perms
use miri.TreeBorrows.Sifa.{can_skip_foreign_access, record_new, from_foreign, from_acc_and_rel}

pub record LocationState : Type 0 where
  pub accessed : Bool
  pub permission : PermissionPriv
  pub idempotent_foreign_access : IdempotentForeignAccess

unfoldable pub new_non_accessed : PermissionPriv → IdempotentForeignAccess → Outcome LocationState
new_non_accessed permission sifa = do
  assert (is_initial permission || is_disabled permission)
  assert (not (is_unique permission))
  ret (record { accessed = false; permission = permission; idempotent_foreign_access = sifa })

unfoldable pub new_accessed : PermissionPriv → IdempotentForeignAccess → LocationState
new_accessed permission sifa = record {
  accessed = true;
  permission = permission;
  idempotent_foreign_access = sifa;
}

unfoldable pub possible : LocationState → Bool
unfolding is_unique
possible l = l.accessed || not (is_unique l.permission)

-- the two errors of an access; `ProtectedDealloc` is of deallocation
pub data TransitionError : Type 0 where
  child_access_forbidden : PermissionPriv → TransitionError
  protected_disabled : PermissionPriv → TransitionError
  protected_dealloc : TransitionError

pub data Result {ℓ} (A : Type ℓ) : Type ℓ where
  ok : A → Result A
  err : TransitionError → Result A

-- the rest of `perform_access` once the transition is known not to be undefined behaviour
finish_access :
    LocationState
    → AccessRelatedness
    → Bool
    → PermTransition
    → Outcome (LocationState × Result PermTransition)
unfolding applied produces_disabled possible
finish_access l rel protected t = elim (applied t l.permission) [
  | none ↦ panic
  | some p ↦
      let l' = record l { accessed = l.accessed || not (is_foreign rel); permission = p } in
      if protected && l'.accessed && produces_disabled t
      then ret (l', err (protected_disabled l.permission))
      else (assert (possible l') >> ret (l', ok t))
]

unfoldable pub perform_access :
    AccessKind
    → AccessRelatedness
    → Bool
    → LocationState
    → Outcome (LocationState × Result PermTransition)
unfolding finish_access Perms.perform_access
perform_access kind rel protected l = do
  found ← Perms.perform_access kind rel l.permission protected
  elim found [
    | none ↦ ret (l, err (child_access_forbidden l.permission))
    | some t ↦ finish_access l rel protected t
  ]

pub data ContinueTraversal : Type 0 where
  recurse skip_self_and_children : ContinueTraversal

unfoldable pub skip_if_known_noop :
    AccessKind → AccessRelatedness → LocationState → Outcome ContinueTraversal
unfolding can_skip_foreign_access from_foreign is_disabled is_frozen
skip_if_known_noop kind local_access l = ret recurse
skip_if_known_noop kind foreign_access l = do
  can_skip ← can_skip_foreign_access l.idempotent_foreign_access (from_foreign kind)
  let frozen_read = is_frozen l.permission && is_read kind
  ret (
      if can_skip || is_disabled l.permission || frozen_read
      then skip_self_and_children
      else recurse)

is_recurse : ContinueTraversal → Bool
is_recurse recurse = true
is_recurse skip_self_and_children = false

unfoldable pub record_new_access :
    AccessKind → AccessRelatedness → LocationState → Outcome LocationState
unfolding skip_if_known_noop is_recurse record_new from_acc_and_rel
record_new_access kind rel l = do
  next ← skip_if_known_noop kind rel l
  assert (is_recurse next)
  let sifa = record_new l.idempotent_foreign_access (from_acc_and_rel kind rel)
  ret (record l { idempotent_foreign_access = sifa })

-- What `perform_transition` does to the node: the event it appends to the history, and the levels
-- it hands to `update_exposure` if the node is exposed. Neither is done for a no-op.
pub record NodeUpdate : Type 0 where
  pub event : PermTransition
  pub exposure : Option (WildcardAccessLevel × WildcardAccessLevel)

update_node : Bool → Bool → LocationState → LocationState → PermTransition → Option NodeUpdate
unfolding is_noop strongest_allowed_local_access
update_node exposed protected l l' t =
    if is_noop t
    then none
    else some (record {
      event = t;
      exposure =
          if exposed
          then some (
            strongest_allowed_local_access l.permission protected,
            strongest_allowed_local_access l'.permission protected,
          )
          else none;
    })

unfoldable pub perform_transition :
    Bool
    → AccessKind
    → AccessRelatedness
    → Bool
    → LocationState
    → Outcome (LocationState × Result (Option NodeUpdate))
unfolding record_new_access perform_access update_node
perform_transition exposed kind rel protected l = do
  recorded ← record_new_access kind rel l
  (l', outcome) ← perform_access kind rel protected recorded
  elim outcome [
    | ok t ↦ ret (l', ok (update_node exposed protected l l' t))
    | err e ↦ ret (l', err e)
  ]
