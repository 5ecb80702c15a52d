-- ===== src/TreeBorrows/Location/Compacting.antt =====
-- tree.rs and tree/tests.rs: the replacement of an unprotected parent by its child, which the
-- provenance GC makes.
use miri.Base.{
  ◌>>=◌, List, [], ◌∷◌, Bool, true, false, ◌≡◌, Option, none, some, Outcome, panic, ret, arith,
}
use miri.TreeBorrows.Perms.{
  AccessKind, AccessRelatedness, compatible_with_protector, can_be_replaced_by_child,
}
use miri.TreeBorrows.Location.{LocationState, possible}
use miri.TreeBorrows.Location.Laws.{fits, perform_access_no_fluff, Access, after, run}

-- the states that the GC may merge
pub record Mergeable (prot : Bool) (child parent : LocationState) : Type 0 where
  pub child_fits : fits child prot ≡ true
  pub child_possible : possible child ≡ true
  pub parent_possible : possible parent ≡ true
  pub replaceable : can_be_replaced_by_child parent.permission child.permission ≡ true

-- The child does not panic, and survives only what the parent survives; then they can be merged
-- still.
abbrev pub Simulates :
    Bool → Outcome (Option LocationState) → Outcome (Option LocationState) → Type 0
Simulates prot panic parent = ⊥
Simulates prot (ret none) parent = Unit
Simulates prot (ret (some c)) (ret (some p)) = Mergeable prot c p
Simulates prot (ret (some c)) _ = ⊥

step-Simulates :
    (kind : AccessKind) (rel : AccessRelatedness) (prot : Bool) (child parent : LocationState)
    → Mergeable prot child parent
    → Simulates prot
        (perform_access_no_fluff kind rel prot child)
        (perform_access_no_fluff kind rel false parent)
unfolding perform_access_no_fluff possible compatible_with_protector can_be_replaced_by_child
step-Simulates kind rel prot child parent m = ground arith

-- simulation goes through the next accesses
bind-Simulates :
    (prot : Bool) (c p : Outcome (Option LocationState))
    (f g : LocationState → Outcome (Option LocationState))
    → Simulates prot c p
    → ((child parent : LocationState)
        → Mergeable prot child parent
        → Simulates prot (f child) (g parent))
    → Simulates prot (c >>= λ m. after m f) (p >>= λ m. after m g)
unfolding after
bind-Simulates prot panic p f g s k = elim s [ ]
bind-Simulates prot (ret none) p f g s k = tt
bind-Simulates prot (ret (some l)) panic f g s k = elim s [ ]
bind-Simulates prot (ret (some l)) (ret none) f g s k = elim s [ ]
bind-Simulates prot (ret (some l)) (ret (some q)) f g s k = k l q s

-- A tag that can replace its unprotected parent simulates it over any accesses: they do not panic
-- for the tag, and where they are defined for the tag they are defined for the parent, which the
-- tag can replace after them too.
pub tree_compacting_is_sound :
    (accesses : List Access) (prot : Bool) (child parent : LocationState)
    → Mergeable prot child parent
    → Simulates prot (run prot accesses child) (run false accesses parent)
unfolding run
tree_compacting_is_sound [] prot child parent m = m
tree_compacting_is_sound (a ∷ more) prot child parent m =
    bind-Simulates prot (perform_access_no_fluff a.kind a.rel prot child)
      (perform_access_no_fluff a.kind a.rel false parent) (run prot more) (run false more)
      (step-Simulates a.kind a.rel prot child parent m) (tree_compacting_is_sound more prot)
