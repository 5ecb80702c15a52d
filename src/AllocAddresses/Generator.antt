-- ===== src/AllocAddresses/Generator.antt =====
-- src/alloc_addresses/address_generator.rs: addresses handed out upwards from a range. The random
-- slack is an argument; a size and an alignment are their bytes, an alignment not 0.
pub mod Disjoint
mod Tests
use native.Mathlib.Nat.{div-add-mod, mul-add-mod_self_left, mod_self, mod-lt}
use miri.Base.{
  lt→ltb, ◌*◌, ◌/◌, ℕ, ◌+◌, ◌-◌, ◌%◌, ◌^◌, ◌≤◌, ◌<◌, ◌≡◌, max, Bool, true, false, ltb, ◌==◌,
  if◌then◌else◌, Outcome, panic, ret, ◌>>=◌, Returns, arith,
}

abbrev pub u64_mod : ℕ
u64_mod = 2 ^ 64

-- `strict_add` panics where the sum is no `u64`
strict_add : ℕ → ℕ → Outcome ℕ
strict_add a b = if ltb (a + b) u64_mod then ret (a + b) else panic

unfoldable pub align_addr : ℕ → ℕ → Outcome ℕ
unfolding strict_add
align_addr addr align =
    let rem = addr % align in
    if rem == 0 then ret addr else (strict_add addr align >>= λ sum. ret (sum - rem))

pub record AddressGenerator : Type 0 where
  pub next_base_addr : ℕ
  pub end : ℕ

pub data GenResult : Type 0 where
  address_space_full : GenResult
  address : ℕ → GenResult

unfoldable pub new : ℕ → ℕ → AddressGenerator
new start end = record { next_base_addr = start; end = end }

-- from the aligned base address on
claim_addr : AddressGenerator → ℕ → ℕ → AddressGenerator × GenResult
claim_addr g size base_addr =
    let next = base_addr + max size 1 in
    if ltb next u64_mod
    then (let g' = record g { next_base_addr = next } in
        if ltb g.end next then (g', address_space_full) else (g', address base_addr))
    else (g, address_space_full)

unfoldable pub generate : AddressGenerator → ℕ → ℕ → ℕ → Outcome (AddressGenerator × GenResult)
unfolding claim_addr align_addr
generate g size align slack =
    let start = g.next_base_addr + slack in
    if ltb start u64_mod
    then (align_addr start align >>= λ base_addr. ret (claim_addr g size base_addr))
    else ret (g, address_space_full)

round_up-mod : (addr align : ℕ) → (addr + align - addr % align) % align ≡ 0
round_up-mod addr align =
    let e : addr + align - addr % align ≡ align * (addr / align) + align =
      omega (arith, div-add-mod addr align) in
    rw (e, mul-add-mod_self_left align (addr / align) align) (mod_self align)

-- `align_addr` gives the least multiple of the alignment that is not below the address, where the
-- sum of the two is a `u64`.
pub align_addr_lem :
    (addr align : ℕ)
    → 0 < align
    → addr + align < u64_mod
    → Returns (align_addr addr align) λ a. (a % align ≡ 0) × (addr ≤ a) × (a < addr + align)
unfolding align_addr
align_addr_lem addr align h k =
    ground (arith, round_up-mod addr align, mod-lt addr h, lt→ltb (addr + align) u64_mod k)

abbrev Granted : AddressGenerator → ℕ → ℕ → ℕ → AddressGenerator × GenResult → Type 0
Granted g size align slack (g', address_space_full) =
    (g.next_base_addr ≤ g'.next_base_addr) × (g'.end ≡ g.end)
Granted g size align slack (g', address a) =
    (a % align ≡ 0)
    × (g.next_base_addr ≤ a)
    × (a + size ≤ g'.next_base_addr)
    × (a < g'.next_base_addr)
    × (g'.next_base_addr ≤ g.end)
    × (g'.end ≡ g.end)
    × (g'.next_base_addr ≡ a + max size 1)
    × (a < g.next_base_addr + slack + align)

-- A request either finds the space full, or gets an aligned address, at most the slack and one
-- alignment above the ones handed out, with its bytes below the generator's end and below all later
-- addresses; at least one byte is taken. It does not panic while there is room for the alignment.
pub generate_lem :
    (g : AddressGenerator) (size align slack : ℕ)
    → 0 < align
    → g.next_base_addr + slack + align < u64_mod
    → Returns (generate g size align slack) (Granted g size align slack)
unfolding generate
generate_lem g size align slack h k = rw (lt→ltb (g.next_base_addr + slack) u64_mod (omega arith)) (
    claim (align_addr (g.next_base_addr + slack) align)
      (align_addr_lem (g.next_base_addr + slack) align h k))
  where
    claim :
        (m : Outcome ℕ)
        → Returns m (λ a.
          (a % align ≡ 0) × (g.next_base_addr + slack ≤ a) × (a < g.next_base_addr + slack + align))
        → Returns (m >>= λ a. ret (claim_addr g size a)) (Granted g size align slack)
    claim panic h = h
    claim (ret a) h = ground arith
