-- ===== src/TreeBorrows/Perms/Laws.antt =====
-- perms.rs: what its exhaustive tests assert of the transitions, for all inputs.
use miri.Base.{Bool, true, false, ◌≤◌, ◌≡◌, ◌≢◌, Option, some, Outcome, panic, ret, arith}
use miri.TreeBorrows.Perms.{
  AccessKind, read, write, AccessRelatedness, foreign_access, local_access, PermissionPriv,
  compatible_with_protector, transition, IdempotentForeignAccess, rank, skip_read, skip_write,
  PermTransition, strongest_idempotent_foreign_access, allows, strongest_allowed_local_access,
  perform_access, is_possible, applied,
}

-- a protector goes away or stays, and does not appear; while it is there, the permission is one
-- that a protected tag can have
pub record Protectors (p : PermissionPriv) (before after : Bool) : Type 0 where
  pub not_new : before ≡ false → after ≡ false
  pub fits : before ≡ true → compatible_with_protector p ≡ true

-- the access is defined: it neither panics nor is undefined behaviour
abbrev pub permits {ℓ} : {A : Type ℓ} → Outcome (Option A) → Bool
permits (ret (some _)) = true
permits _ = false

pub transition-ne-panic :
    (kind : AccessKind) (rel : AccessRelatedness) (p : PermissionPriv) (prot : Bool)
    → (prot ≡ true → compatible_with_protector p ≡ true)
    → transition kind rel p prot ≢ panic
unfolding transition compatible_with_protector
transition-ne-panic kind rel p prot h = ground arith

pub transition_keeps_compatible :
    (kind : AccessKind) (rel : AccessRelatedness) (p q : PermissionPriv) (prot : Bool)
    → compatible_with_protector p ≡ true
    → transition kind rel p prot ≡ ret (some q)
    → compatible_with_protector q ≡ true
unfolding transition compatible_with_protector
transition_keeps_compatible kind rel p q prot h e = ground arith

-- Doing an access twice is doing it once, also when the protector has gone in between.
pub transition_idempotent :
    (kind : AccessKind) (rel : AccessRelatedness) (p q : PermissionPriv) (before after : Bool)
    → Protectors p before after
    → transition kind rel p before ≡ ret (some q)
    → transition kind rel q after ≡ ret (some q)
unfolding transition compatible_with_protector
transition_idempotent kind rel p q before after h e = ground arith

-- A foreign read after a foreign write changes nothing, also when the protector has gone.
pub foreign_read_after_write :
    (p q : PermissionPriv) (before after : Bool)
    → Protectors p before after
    → transition write foreign_access p before ≡ ret (some q)
    → transition read foreign_access q after ≡ ret (some q)
unfolding transition compatible_with_protector
foreign_read_after_write p q before after h e = ground arith

-- foreign accesses that `access` stands for
abbrev pub Covers : IdempotentForeignAccess → AccessKind → Type 0
Covers sifa read = rank skip_read ≤ rank sifa
Covers sifa write = rank skip_write ≤ rank sifa

-- A foreign access that the strongest idempotent foreign access of a permission covers is no
-- undefined behaviour and leaves the permission as it is.
pub sifa_is_correct :
    (kind : AccessKind) (p : PermissionPriv) (prot : Bool) (sifa : IdempotentForeignAccess)
    → strongest_idempotent_foreign_access p prot ≡ ret sifa
    → Covers sifa kind
    → transition kind foreign_access p prot ≡ ret (some p)
unfolding transition compatible_with_protector strongest_idempotent_foreign_access
sifa_is_correct read p prot sifa e c = ground arith
sifa_is_correct write p prot sifa e c = ground arith

-- With a protector the strongest idempotent foreign access is at most what it is without one.
pub sifa_protected :
    (p : PermissionPriv) (a b : IdempotentForeignAccess)
    → strongest_idempotent_foreign_access p true ≡ ret a
    → strongest_idempotent_foreign_access p false ≡ ret b
    → rank a ≤ rank b
unfolding strongest_idempotent_foreign_access
sifa_protected p a b e f = ground arith

-- The level of `strongest_allowed_local_access` allows an access exactly when the access, made
-- locally, is no undefined behaviour; with or without a protector, which local accesses tolerate.
pub allowed_local_access :
    (kind : AccessKind) (p : PermissionPriv) (prot : Bool)
    → allows (strongest_allowed_local_access p prot) kind
      ≡ permits (transition kind local_access p prot)
unfolding transition allows strongest_allowed_local_access
allowed_local_access kind p prot = ground arith

-- A transition that is made goes up in the order, so it is one that `is_possible` accepts, and
-- `applied` takes it from the old permission to the new one.
pub perform_access-is_possible :
    (kind : AccessKind) (rel : AccessRelatedness) (p : PermissionPriv) (prot : Bool)
    (t : PermTransition)
    → perform_access kind rel p prot ≡ ret (some t)
    → (is_possible t ≡ true)
      × (applied t p ≡ some t.to)
      × (transition kind rel p prot ≡ ret (some t.to))
unfolding perform_access is_possible applied
perform_access-is_possible kind rel p prot t e = ground arith
