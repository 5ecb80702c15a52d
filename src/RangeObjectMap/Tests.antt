-- ===== src/RangeObjectMap/Tests.antt =====
-- A run of the map at a concrete input.
use miri.Base.{ℕ, List, [], ◌∷◌, Returns, arith}
use miri.RangeObjectMap.{AllocRange, Elem, access_type}
use miri.RangeObjectMap.Search.{IsSorted}
use miri.RangeObjectMap.Access.{AccessSpec, access_type_lem}

abbrev objects : List (Elem ℕ)
objects =
    record { range = record { start = 4; size = 4 }; object = 1 }
    ∷ record { range = record { start = 8; size = 2 }; object = 2 }
    ∷ record { range = record { start = 20; size = 8 }; object = 3 }
    ∷ []

objects-IsSorted : IsSorted objects
objects-IsSorted = (
  omega arith,
  (omega arith, (omega arith, tt)),
  (omega arith, (omega arith, tt), (omega arith, tt, tt)),
)

abbrev wide : AllocRange
wide = record { start = 6; size = 10 }

access_type_example : Returns (access_type objects wide) (AccessSpec objects wide)
access_type_example = access_type_lem objects wide objects-IsSorted (omega arith) (omega arith)
