-- ===== src/TreeBorrows/Location/Laws.antt =====
-- tree.rs and tree/tests.rs: what accesses do to one location, for all states.
use miri.Base.{
  Bool, true, not, ◌||◌, ◌≡◌, ◌≢◌, Option, none, some, List, [], ◌∷◌, Outcome, ret, ◌>>=◌, arith,
  map_outcome, Returns,
}
use miri.TreeBorrows.Perms.{
  AccessKind, read, AccessRelatedness, compatible_with_protector, PermTransition,
}
use miri.TreeBorrows.Location.{LocationState, possible, Result, ok, err, perform_access}

-- the permission is one that a tag with this protector can have
abbrev pub fits : LocationState → Bool → Bool
fits l prot = compatible_with_protector l.permission || not prot

succeeded : LocationState × Result PermTransition → Option LocationState
succeeded (l, ok t) = some l
succeeded (l, err e) = none

-- `perform_access_no_fluff`
unfoldable pub perform_access_no_fluff :
    AccessKind → AccessRelatedness → Bool → LocationState → Outcome (Option LocationState)
unfolding succeeded perform_access
perform_access_no_fluff kind rel prot l = map_outcome succeeded (perform_access kind rel prot l)

-- An access of a possible state whose permission fits the protector passes every assertion, and
-- leaves, error or not, a possible state that fits the protector, whose location is no less accessed.
pub perform_access_safe :
    (kind : AccessKind) (rel : AccessRelatedness) (prot : Bool) (l : LocationState)
    → fits l prot ≡ true
    → possible l ≡ true
    → Returns (perform_access kind rel prot l) λ (l', _).
      (fits l' prot ≡ true) × (possible l' ≡ true) × (l'.accessed ≡ (l.accessed || l'.accessed))
unfolding perform_access possible compatible_with_protector
perform_access_safe kind rel prot l f p = ground arith

-- one access, and the accesses of a list in their order; `none` is undefined behaviour
pub record Access : Type 0 where
  pub kind : AccessKind
  pub rel : AccessRelatedness

unfoldable pub after :
    Option LocationState
    → (LocationState → Outcome (Option LocationState))
    → Outcome (Option LocationState)
after none f = ret none
after (some l) f = f l

unfoldable pub run : Bool → List Access → LocationState → Outcome (Option LocationState)
unfolding after perform_access_no_fluff
run prot [] l = ret (some l)
run prot (a ∷ more) l = perform_access_no_fluff a.kind a.rel prot l >>= λ m. after m (run prot more)

abbrev pub reads : AccessRelatedness → AccessRelatedness → List Access
reads a b = record { kind = read; rel = a } ∷ record { kind = read; rel = b } ∷ []

-- Two reads that can be done in one order can be done in the other, with the same final state.
pub all_read_accesses_commute :
    (first second : AccessRelatedness) (prot : Bool) (l m : LocationState)
    → fits l prot ≡ true
    → possible l ≡ true
    → run prot (reads first second) l ≡ ret (some m)
    → run prot (reads second first) l ≡ ret (some m)
unfolding run possible compatible_with_protector
all_read_accesses_commute first second prot l m f p e = ground arith

-- Under a protector, at a location whose state is possible and whose permission is neither `Cell` nor
-- the reserved one with interior mutability, of two accesses that are both defined and of which one is
-- local and the other foreign, each is a read.
pub protected_enforces_noalias :
    (a b : Access) (l m : LocationState)
    → compatible_with_protector l.permission ≡ true
    → possible l ≡ true
    → a.rel ≢ b.rel
    → run true (a ∷ b ∷ []) l ≡ ret (some m)
    → (a.kind ≡ read) × (b.kind ≡ read)
unfolding run possible compatible_with_protector
protected_enforces_noalias a b l m c p d e = ground arith
