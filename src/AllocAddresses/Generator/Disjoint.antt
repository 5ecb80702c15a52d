-- ===== src/AllocAddresses/Generator/Disjoint.antt =====
-- address_generator.rs: runs of a generator over a list of requests. A request that finds
-- the space full ends the run, as the error ends the interpreted program.
use miri.Base.{
  ℕ, ◌+◌, ◌≤◌, ◌<◌, ◌≡◌, refl, subst, max, List, [], ◌∷◌, All, Outcome, panic, ret, ◌>>=◌, Returns,
  arith,
}
use miri.AllocAddresses.Generator.{
  AddressGenerator, GenResult, address_space_full, address, generate, u64_mod, Granted,
  generate_lem,
}

pub record Request : Type 0 where
  pub size : ℕ
  pub align : ℕ
  pub slack : ℕ

-- an address and the size of the allocation there
pub record Block : Type 0 where
  pub addr : ℕ
  pub size : ℕ

-- the rest of a run, from what a request gave
after :
    ℕ
    → (AddressGenerator → Outcome (List Block))
    → AddressGenerator × GenResult
    → Outcome (List Block)
after size rest (g, address_space_full) = ret []
after size rest (g, address a) = rest g >>= λ bs. ret (record { addr = a; size = size } ∷ bs)

pub run : List Request → AddressGenerator → Outcome (List Block)
unfolding after
run [] g = ret []
run (r ∷ rs) g = generate g r.size r.align r.slack >>= after r.size (run rs)

-- the bytes of `b`, at least one, are all below `c`
abbrev pub Before : Block → Block → Type 0
Before b c = b.addr + max b.size 1 ≤ c.addr

abbrev pub InOrder : ℕ → ℕ → List Block → Type 0
InOrder low high [] = Unit
InOrder low high (b ∷ bs) =
    (low ≤ b.addr)
    × (b.addr + max b.size 1 ≤ high)
    × All (Before b) bs
    × InOrder (b.addr + max b.size 1) high bs

-- a request that the generator has room to align
abbrev pub IsFine : ℕ → Request → Type 0
IsFine end r = (0 < r.align) × (r.slack < 16) × (end + 16 + r.align ≤ u64_mod)

All-Before :
    (b : Block) (low high : ℕ) (bs : List Block)
    → b.addr + max b.size 1 ≤ low
    → InOrder low high bs
    → All (Before b) bs
All-Before b low high [] h o = tt
All-Before b low high (c ∷ bs) h o =
    (omega arith, All-Before b (c.addr + max c.size 1) high bs (omega arith) o.3)

module _ (end : ℕ) where
  -- what is shown of the blocks of a run from `g`
  abbrev Good : AddressGenerator → List Block → Type 0
  Good g bs = InOrder g.next_base_addr end bs

  after-Good :
      (r : Request) (g : AddressGenerator) (rest : AddressGenerator → Outcome (List Block))
      → ((g' : AddressGenerator)
          → g'.end ≡ end
          → g'.next_base_addr ≤ end
          → Returns (rest g') (Good g'))
      → (m : Outcome (AddressGenerator × GenResult)) → g.end ≡ end
      → Returns m (Granted g r.size r.align r.slack)
      → Returns (m >>= after r.size rest) (Good g)
  unfolding after
  after-Good r g rest k panic e h = h
  after-Good r g rest k (ret (g', address_space_full)) e h = tt
  after-Good r g rest k (ret (g', address a)) e h =
      push (rest g') (k g' (omega arith) (omega arith))
    where
      push :
          (m : Outcome (List Block))
          → Returns m (Good g')
          → Returns (m >>= λ bs. ret (record { addr = a; size = r.size } ∷ bs)) (Good g)
      push panic o = o
      push (ret bs) o = (
        omega arith,
        omega arith,
        All-Before _ g'.next_base_addr end bs (omega arith) o,
        subst (λ n. InOrder n end bs) h.6 o,
      )

  run_in_order :
      (rs : List Request) (g : AddressGenerator)
      → g.end ≡ end
      → g.next_base_addr ≤ end
      → All (IsFine end) rs
      → Returns (run rs g) (Good g)
  unfolding run
  run_in_order [] g e h f = tt
  run_in_order (r ∷ rs) g e h f =
      after-Good r g (run rs) (λ g' e' h'. run_in_order rs g' e' h' f.1)
        (generate g r.size r.align r.slack) e
        (generate_lem g r.size r.align r.slack f.0.0 (omega arith))

-- Whatever is requested of a generator, with slacks below 16 and alignments that fit above its end,
-- it never panics, and the blocks that it hands out lie between its next address and its end, each
-- with all its bytes, and at least one, below all the later ones.
pub run_disjoint :
    (rs : List Request) (g : AddressGenerator)
    → g.next_base_addr ≤ g.end
    → All (IsFine g.end) rs
    → Returns (run rs g) (InOrder g.next_base_addr g.end)
run_disjoint rs g h f = run_in_order g.end rs g refl h f
