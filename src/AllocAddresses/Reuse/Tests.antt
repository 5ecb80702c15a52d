-- ===== src/AllocAddresses/Reuse/Tests.antt =====
-- Runs of the pool at concrete inputs, with clocks that are numbers.
use miri.Base.{ℕ, refl, true, false, List, [], Returns, not, ◌||◌, arith}
use miri.AllocAddresses.Reuse.{Entry, add_addr, take_addr}
use miri.AllocAddresses.Reuse.Laws.{IsValid, nil-IsValid, add_addr-IsValid}
use miri.AllocAddresses.Reuse.Take.{TakeSpec, take_addr_lem}

abbrev freed : Entry ℕ
freed = record { addr = 64; size = 16; thread = 1; clock = 5 }

abbrev later : Entry ℕ
later = record { addr = 128; size = 8; thread = 0; clock = 6 }

abbrev pool : List (List (Entry ℕ))
pool = add_addr false true [] 3 freed

pool-IsValid : IsValid pool
pool-IsValid = add_addr-IsValid false true [] 3 freed refl nil-IsValid

take_addr_example :
    Returns
      (take_addr false true true (λ b e. b) pool 16 3 2)
      (TakeSpec true pool 16 3 2 (not (false || not true)))
take_addr_example =
    take_addr_lem true pool 16 3 2 false true (λ b e. b) (λ b e h. (omega arith, h)) pool-IsValid
