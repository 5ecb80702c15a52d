-- ===== src/TreeBorrows/Location/Skipping.antt =====
-- tree.rs and foreign_access_skipping.rs: when the traversal may skip a foreign access.
use miri.Base.{Bool, true, false, ◌≡◌, ◌≤◌, ◌≢◌, Option, Outcome, panic, ret, arith, Returns}
use miri.TreeBorrows.Perms.{
  AccessKind, AccessRelatedness, foreign_access, PermissionPriv, is_initial, disabled,
  compatible_with_protector, IdempotentForeignAccess, rank, strongest_idempotent_foreign_access,
}
use miri.TreeBorrows.Sifa.{can_skip_foreign_access, from_foreign, ensure_no_stronger_than}
use miri.TreeBorrows.Location.{
  LocationState, possible, Result, ok, err, perform_access, perform_transition, NodeUpdate, recurse,
  skip_if_known_noop, new_accessed,
}
use miri.TreeBorrows.Location.Laws.{fits}

-- `sifa` is at most the access that was computed, which did not panic
abbrev pub IsBelow : IdempotentForeignAccess → Outcome IdempotentForeignAccess → Type 0
IsBelow sifa panic = ⊥
IsBelow sifa (ret strongest) = rank sifa ≤ rank strongest

-- What holds of a location state between two accesses, of which none was an error.
pub record IsValid (prot : Bool) (l : LocationState) : Type 0 where
  pub fitting : fits l prot ≡ true
  pub reachable : possible l ≡ true
  pub idempotent :
      IsBelow l.idempotent_foreign_access (strongest_idempotent_foreign_access l.permission prot)
  pub alive : prot ≡ true → l.accessed ≡ true → l.permission ≢ disabled

abbrev pub AfterAccess : Bool → LocationState × Result (Option NodeUpdate) → Type 0
AfterAccess prot (l, ok _) = IsValid prot l
AfterAccess prot (l, err _) = Unit

-- An access of a valid state that the traversal does not skip passes every assertion, and without
-- an error leaves a valid state.
pub perform_transition-IsValid :
    (exposed : Bool) (kind : AccessKind) (rel : AccessRelatedness) (prot : Bool) (l : LocationState)
    → IsValid prot l
    → skip_if_known_noop kind rel l ≡ ret recurse
    → Returns (perform_transition exposed kind rel prot l) (AfterAccess prot)
unfolding perform_transition possible compatible_with_protector strongest_idempotent_foreign_access
perform_transition-IsValid exposed kind rel prot l v e = ground arith

-- A foreign access that the recorded idempotent access of a valid state allows to skip is no error,
-- changes nothing and is a no-op transition.
pub skip_is_noop :
    (kind : AccessKind) (prot : Bool) (l : LocationState)
    → IsValid prot l
    → can_skip_foreign_access l.idempotent_foreign_access (from_foreign kind) ≡ ret true
    → perform_access kind foreign_access prot l
      ≡ ret (l, ok (record { from = l.permission; to = l.permission }))
unfolding perform_access possible compatible_with_protector strongest_idempotent_foreign_access
    can_skip_foreign_access from_foreign
skip_is_noop kind prot l v e = ground arith

-- A valid state stays valid when its protector goes, and when its idempotent access is weakened.
pub IsValid-weaken :
    (l : LocationState) (prot : Bool) (allowed : IdempotentForeignAccess)
    → IsValid prot l
    → IsValid false (record l {
      idempotent_foreign_access = (ensure_no_stronger_than l.idempotent_foreign_access allowed).0;
    })
unfolding possible compatible_with_protector strongest_idempotent_foreign_access
    ensure_no_stronger_than
IsValid-weaken l prot allowed v = ground arith

-- `new_accessed`, called with an initial permission that fits a protector and its strongest idempotent
-- foreign access, gives a valid state.
pub new_accessed-IsValid :
    (p : PermissionPriv) (prot : Bool) (sifa : IdempotentForeignAccess)
    → compatible_with_protector p ≡ true
    → is_initial p ≡ true
    → strongest_idempotent_foreign_access p prot ≡ ret sifa
    → IsValid prot (new_accessed p sifa)
unfolding new_accessed is_initial possible compatible_with_protector
    strongest_idempotent_foreign_access
new_accessed-IsValid p prot sifa c i e = ground arith
