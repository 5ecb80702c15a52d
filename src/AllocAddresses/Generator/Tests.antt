-- ===== src/AllocAddresses/Generator/Tests.antt =====
-- Runs of the address generator at concrete inputs.
use miri.Base.{List, [], ◌∷◌, Returns, arith}
use miri.AllocAddresses.Generator.{AddressGenerator, generate, Granted, generate_lem}
use miri.AllocAddresses.Generator.Disjoint.{Request, run, InOrder, run_disjoint}

abbrev small : AddressGenerator
small = record { next_base_addr = 100; end = 200 }

generate_example : Returns (generate small 4 8 5) (Granted small 4 8 5)
generate_example = generate_lem small 4 8 5 (omega arith) (omega arith)

abbrev requests : List Request
requests =
    record { size = 4; align = 8; slack = 5 }
    ∷ record { size = 0; align = 1; slack = 0 }
    ∷ record { size = 90; align = 2; slack = 0 }
    ∷ []

run_disjoint_example : Returns (run requests small) (InOrder 100 200)
run_disjoint_example = run_disjoint requests small (omega arith) (
  (omega arith, omega arith, omega arith),
  ((omega arith, omega arith, omega arith), ((omega arith, omega arith, omega arith), tt)),
)
