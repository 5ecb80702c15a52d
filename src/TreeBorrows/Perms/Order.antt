-- ===== src/TreeBorrows/Perms/Order.antt =====
-- perms.rs: the order of permissions, and reachability by accesses.
use miri.Base.{Bool, true, false, ◌≡◌, refl, ◌↔◌, some, ret, arith}
use miri.TreeBorrows.Perms.{
  AccessKind, read, write, AccessRelatedness, foreign_access, local_access, PermissionPriv, cell,
  reserved_frz, reserved_im, unique, frozen, disabled, compatible_with_protector, transition, le,
}

-- one access takes `p` to `q`
pub data Step (p q : PermissionPriv) : Type 0 where
  access :
      (kind : AccessKind) (rel : AccessRelatedness) (prot : Bool)
      → (prot ≡ true → compatible_with_protector p ≡ true)
      → transition kind rel p prot ≡ ret (some q)
      → Step p q

-- any number of accesses
pub data Reach (p : PermissionPriv) : PermissionPriv → Type 0 where
  here : Reach p p
  next : {q r : PermissionPriv} → Reach p q → Step q r → Reach p r

pub le_refl : (p : PermissionPriv) → le p p ≡ true
unfolding le
le_refl p = ground arith

pub le_trans : (p q r : PermissionPriv) → le p q ≡ true → le q r ≡ true → le p r ≡ true
unfolding le
le_trans p q r h k = ground arith

-- The order of permissions is antisymmetric.
pub le_antisymm : (p q : PermissionPriv) → le p q ≡ true → le q p ≡ true → p ≡ q
unfolding le
le_antisymm p q h k = ground arith

Step-le : {p q : PermissionPriv} → Step p q → le p q ≡ true
unfolding le transition compatible_with_protector
Step-le (access kind rel prot h e) = ground arith

Reach-le : {p q : PermissionPriv} → Reach p q → le p q ≡ true
Reach-le {p} here = le_refl p
Reach-le {p} (next {q} {r} w s) = le_trans p q r (Reach-le w) (Step-le s)

-- the steps up the chain
module _ {p : PermissionPriv} where
  to_conflicted : Reach p (reserved_frz false) → Reach p (reserved_frz true)
  unfolding transition compatible_with_protector
  to_conflicted w = next w (access read foreign_access true (λ _. refl) refl)

  activate : (c : Bool) → Reach p (reserved_frz c) → Reach p unique
  unfolding transition
  activate true w = next w (access write local_access false (λ e. cc) refl)
  activate false w = next w (access write local_access false (λ e. cc) refl)

  activate_im : Reach p reserved_im → Reach p unique
  unfolding transition
  activate_im w = next w (access write local_access false (λ e. cc) refl)

  freeze : Reach p unique → Reach p frozen
  unfolding transition
  freeze w = next w (access read foreign_access false (λ e. cc) refl)

  disable : Reach p frozen → Reach p disabled
  unfolding transition
  disable w = next w (access write foreign_access false (λ e. cc) refl)

ruleset chain = (here, to_conflicted, activate, activate_im, freeze, disable)

le-Reach : (p q : PermissionPriv) → le p q ≡ true → Reach p q
unfolding le
le-Reach cell cell h = here
le-Reach reserved_im reserved_im h = here
le-Reach reserved_im unique h = search chain
le-Reach reserved_im frozen h = search chain
le-Reach reserved_im disabled h = search chain
le-Reach (reserved_frz true) (reserved_frz true) h = here
le-Reach (reserved_frz false) (reserved_frz false) h = here
le-Reach (reserved_frz false) (reserved_frz true) h = search chain
le-Reach (reserved_frz c) unique h = activate c here
le-Reach (reserved_frz c) frozen h = freeze (activate c here)
le-Reach (reserved_frz c) disabled h = disable (freeze (activate c here))
le-Reach unique unique h = here
le-Reach unique frozen h = search chain
le-Reach unique disabled h = search chain
le-Reach frozen frozen h = here
le-Reach frozen disabled h = search chain
le-Reach disabled disabled h = here
le-Reach _ _ h = cc

-- One permission is below another in the order exactly when accesses, protected ones of
-- permissions that a protected tag can have included, lead from the one to the other.
pub le_is_reachability : (p q : PermissionPriv) → (le p q ≡ true) ↔ Reach p q
le_is_reachability p q = (le-Reach p q, Reach-le)
