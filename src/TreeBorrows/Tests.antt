-- ===== src/TreeBorrows/Tests.antt =====
-- Runs of the permissions and location states of Tree Borrows at concrete inputs.
use miri.Base.{true, false, ◌≡◌, refl, ◌↔◌, List, [], ◌∷◌, ret, arith, Returns}
use miri.TreeBorrows.Perms.{
  read, write, foreign_access, local_access, PermissionPriv, unique, frozen, disabled, le,
  compatible_with_protector, strongest_idempotent_foreign_access, skip_write, no_access,
  can_be_replaced_by_child,
}
use miri.TreeBorrows.Perms.Laws.{Protectors}
use miri.TreeBorrows.Perms.Order.{Reach, le_is_reachability}
use miri.TreeBorrows.Sifa.{can_skip_foreign_access, from_foreign}
use miri.TreeBorrows.Location
use miri.TreeBorrows.Location.{
  LocationState, possible, ok, skip_if_known_noop, recurse, perform_transition, new_accessed,
}
use miri.TreeBorrows.Location.Laws.{run, Access, fits, protected_enforces_noalias}
use miri.TreeBorrows.Location.Compacting.{Simulates, Mergeable, tree_compacting_is_sound}
use miri.TreeBorrows.Location.Skipping.{
  IsValid, AfterAccess, perform_transition-IsValid, skip_is_noop,
}

no_protector : Protectors unique false false
no_protector = record { not_new = λ e. e; fits = λ e. cc }

le_is_reachability_example : (le unique disabled ≡ true) ↔ Reach unique disabled
le_is_reachability_example = le_is_reachability unique disabled

abbrev accessed : PermissionPriv → LocationState
accessed p = record { accessed = true; permission = p; idempotent_foreign_access = no_access }

unique-fits : fits (accessed unique) true ≡ true
unfolding compatible_with_protector
unique-fits = refl

unique-possible : possible (accessed unique) ≡ true
unfolding possible
unique-possible = refl

noalias_example : (read ≡ read) × (read ≡ read)
unfolding run possible compatible_with_protector
noalias_example =
    protected_enforces_noalias (record { kind = read; rel = local_access })
      (record { kind = read; rel = foreign_access }) (accessed frozen) (accessed frozen) refl refl
      (λ e. cc) refl

unique_over_frozen : Mergeable true (accessed frozen) (accessed unique)
unfolding possible compatible_with_protector can_be_replaced_by_child
unique_over_frozen = record {
  child_fits = refl;
  child_possible = refl;
  parent_possible = refl;
  replaceable = refl;
}

abbrev some_accesses : List Access
some_accesses =
    record { kind = read; rel = local_access } ∷ record { kind = write; rel = foreign_access } ∷ []

tree_compacting_example :
    Simulates true
      (run true some_accesses (accessed frozen))
      (run false some_accesses (accessed unique))
tree_compacting_example =
    tree_compacting_is_sound some_accesses true (accessed frozen) (accessed unique)
      unique_over_frozen

unique-IsValid : IsValid true (accessed unique)
unfolding possible compatible_with_protector strongest_idempotent_foreign_access
unique-IsValid = record {
  fitting = refl;
  reachable = refl;
  idempotent = omega arith;
  alive = λ p a e. cc;
}

abbrev disabled_one : LocationState
disabled_one = record {
  accessed = true;
  permission = disabled;
  idempotent_foreign_access = skip_write;
}

disabled-IsValid : IsValid false disabled_one
unfolding possible compatible_with_protector strongest_idempotent_foreign_access
disabled-IsValid = record {
  fitting = refl;
  reachable = refl;
  idempotent = omega arith;
  alive = λ p a e. cc;
}

perform_transition_example :
    Returns (perform_transition true read foreign_access true (accessed unique)) (AfterAccess true)
unfolding skip_if_known_noop
perform_transition_example =
    perform_transition-IsValid true read foreign_access true (accessed unique) unique-IsValid refl

skip_example :
    Location.perform_access write foreign_access false disabled_one
    ≡ ret (disabled_one, ok (record { from = disabled; to = disabled }))
unfolding can_skip_foreign_access from_foreign
skip_example = skip_is_noop write false disabled_one disabled-IsValid refl
