-- ===== src/WeakMemory/Fetch.antt =====
-- weak_memory.rs: which stores `fetch_store` may choose.
use miri.Base.{
  ℕ, zero, suc, ◌+◌, ◌<◌, ◌≡◌, refl, sym, ap, ◌∙◌, subst, ◌⊎◌, inl, inr, Bool, true, false, ◌&&◌,
  ◌||◌, if◌then◌else◌, some, [], ◌∷◌, length, get_elem?, ret, Returns, Bool-cases, arith,
}
use mathlib.Core.Option.{some-injective}
use miri.VectorClock.Timestamp.{Spans}
use miri.DataRace.Cell.{ThreadClockSet}
use miri.WeakMemory.{StoreElement, StoreBuffer, stops, searched, last_sc, candidates, fetch_store}
use miri.WeakMemory.Choose.{Member, choose-Member, Member-choose}

module _ {Span Scalar : Type 0} ⦃s : Spans Span⦄ (is_seqcst : Bool)
    (clocks : ThreadClockSet Span) where
  -- the position is a candidate where SC stores have been found or not
  Candidate : Bool → StoreBuffer Span Scalar → ℕ → Type 0
  Candidate found [] k = ⊥
  Candidate found (e ∷ b) zero = (is_seqcst && e.is_seqcst && found) ≡ false
  Candidate found (e ∷ b) (suc k) =
      (stops is_seqcst clocks e ≡ false) × Candidate (found || (is_seqcst && e.is_seqcst)) b k

  rest_Candidate :
      (found : Bool) (n m : ℕ) (e : StoreElement Span Scalar) (b : StoreBuffer Span Scalar)
      → (Member m (
            last_sc is_seqcst
              (found || (is_seqcst && e.is_seqcst))
              (searched is_seqcst clocks (suc n) b))
          → (k : ℕ) × (m ≡ suc n + k) × Candidate (found || (is_seqcst && e.is_seqcst)) b k)
      → Member m (
          last_sc is_seqcst
            (found || (is_seqcst && e.is_seqcst))
            (if stops is_seqcst clocks e then [] else searched is_seqcst clocks (suc n) b))
      → (k : ℕ) × (m ≡ n + k) × Candidate found (e ∷ b) k
  unfolding Candidate last_sc
  rest_Candidate found n m e b ih h = by_stops ih h (Bool-cases (stops is_seqcst clocks e))
    where
      by_stops :
          (Member m (
              last_sc is_seqcst
                (found || (is_seqcst && e.is_seqcst))
                (searched is_seqcst clocks (suc n) b))
            → (k : ℕ) × (m ≡ suc n + k) × Candidate (found || (is_seqcst && e.is_seqcst)) b k)
          → Member m (
              last_sc is_seqcst
                (found || (is_seqcst && e.is_seqcst))
                (if stops is_seqcst clocks e then [] else searched is_seqcst clocks (suc n) b))
          → ((stops is_seqcst clocks e ≡ true) ⊎ (stops is_seqcst clocks e ≡ false))
          → (k : ℕ) × (m ≡ n + k) × Candidate found (e ∷ b) k
      by_stops ih h (inl y) = absurd (rw y at h)
      by_stops ih h (inr d) = let r = ih (rw d at h) in (suc r.0, omega (arith, r.1), (d, r.2))

  Member-Candidate :
      (found : Bool) (n m : ℕ) (b : StoreBuffer Span Scalar)
      → Member m (last_sc is_seqcst found (searched is_seqcst clocks n b))
      → (k : ℕ) × (m ≡ n + k) × Candidate found b k
  unfolding searched last_sc Candidate
  Member-Candidate found n m [] h = absurd h
  Member-Candidate found n m (e ∷ b) h = elim (Bool-cases (is_seqcst && e.is_seqcst && found)) [
    | inl y ↦
        rest_Candidate found n m e b
          (Member-Candidate (found || (is_seqcst && e.is_seqcst)) (suc n) m b) (rw y at h)
    | inr d ↦
        here d
          (rest_Candidate found n m e b
            (Member-Candidate (found || (is_seqcst && e.is_seqcst)) (suc n) m b))
          (rw d at h)
  ]
    where
      here :
          {M : Type 0}
          → (is_seqcst && e.is_seqcst && found) ≡ false
          → (M → (k : ℕ) × (m ≡ n + k) × Candidate found (e ∷ b) k)
          → (m ≡ n) ⊎ M
          → (k : ℕ) × (m ≡ n + k) × Candidate found (e ∷ b) k
      here d later (inl p) = (0, omega (arith, p), d)
      here d later (inr q) = later q

  Candidate-Member :
      (found : Bool) (n k : ℕ) (b : StoreBuffer Span Scalar)
      → Candidate found b k
      → Member (n + k) (last_sc is_seqcst found (searched is_seqcst clocks n b))
  unfolding searched last_sc Candidate
  Candidate-Member found n k [] h = absurd h
  Candidate-Member found n zero (e ∷ b) h = rw (h) (inl (omega arith))
  Candidate-Member found n (suc k) (e ∷ b) h =
      let p : suc n + k ≡ n + suc k = omega arith in
      let later =
        subst
          (λ m. Member m (
            last_sc is_seqcst (found || (is_seqcst && e.is_seqcst))
              (searched is_seqcst clocks (suc n) b)))
          p (Candidate-Member (found || (is_seqcst && e.is_seqcst)) (suc n) k b (h.1)) in
      elim (Bool-cases (is_seqcst && e.is_seqcst && found)) [
        | inl y ↦ rw (y, h.0) later
        | inr d ↦ rw (d, h.0) (inr later)
      ]

  -- The store at a position may be read: no newer store ends the search, and an SC load reads of
  -- the stores marked SC only the last.
  pub record Allowed (b : StoreBuffer Span Scalar) (k : ℕ) : Type 0 where
    pub in_range : k < length b
    pub searched_to :
        (j : ℕ) (e : StoreElement Span Scalar)
        → j < k
        → get_elem? b j ≡ some e
        → stops is_seqcst clocks e ≡ false
    pub last_sc_only :
        (j : ℕ) (e x : StoreElement Span Scalar)
        → get_elem? b k ≡ some e
        → (is_seqcst && e.is_seqcst) ≡ true
        → j < k
        → get_elem? b j ≡ some x
        → x.is_seqcst ≡ false

  Candidate-in_range :
      (found : Bool) (b : StoreBuffer Span Scalar) (k : ℕ) → Candidate found b k → k < length b
  unfolding Candidate
  Candidate-in_range found [] k h = absurd h
  Candidate-in_range found (e ∷ b) zero h = omega arith
  Candidate-in_range found (e ∷ b) (suc k) h =
      omega (arith, Candidate-in_range (found || (is_seqcst && e.is_seqcst)) b k (h.1))

  Candidate-searched :
      (found : Bool) (b : StoreBuffer Span Scalar) (k j : ℕ) (e : StoreElement Span Scalar)
      → Candidate found b k
      → j < k
      → get_elem? b j ≡ some e
      → stops is_seqcst clocks e ≡ false
  unfolding Candidate
  Candidate-searched found [] k j e h l g = absurd h
  Candidate-searched found (x ∷ b) zero j e h l g = absurd (omega arith)
  Candidate-searched found (x ∷ b) (suc k) zero e h l g =
      subst (λ y. stops is_seqcst clocks y ≡ false) (some-injective _ _ g) (h.0)
  Candidate-searched found (x ∷ b) (suc k) (suc j) e h l g =
      Candidate-searched (found || (is_seqcst && x.is_seqcst)) b k j e (h.1) (omega arith) g

  Candidate-found :
      (found : Bool) (b : StoreBuffer Span Scalar) (k : ℕ) (e : StoreElement Span Scalar)
      → Candidate found b k
      → get_elem? b k ≡ some e
      → (is_seqcst && e.is_seqcst) ≡ true
      → found ≡ false
  unfolding Candidate
  Candidate-found found [] k e h g t = absurd h
  Candidate-found found (x ∷ b) zero e h g t =
      let p : (is_seqcst && x.is_seqcst) ≡ true =
        ap (λ y. is_seqcst && y.is_seqcst) (some-injective _ _ g) ∙ t in
      ground arith
  Candidate-found found (x ∷ b) (suc k) e h g t =
      let f : (found || (is_seqcst && x.is_seqcst)) ≡ false =
        Candidate-found (found || (is_seqcst && x.is_seqcst)) b k e (h.1) g t in
      ground arith

  Candidate-last :
      (found : Bool) (b : StoreBuffer Span Scalar) (k j : ℕ) (e x : StoreElement Span Scalar)
      → Candidate found b k
      → get_elem? b k ≡ some e
      → (is_seqcst && e.is_seqcst) ≡ true
      → j < k
      → get_elem? b j ≡ some x
      → x.is_seqcst ≡ false
  unfolding Candidate
  Candidate-last found [] k j e x h g t l q = absurd h
  Candidate-last found (y ∷ b) zero j e x h g t l q = absurd (omega arith)
  Candidate-last found (y ∷ b) (suc k) zero e x h g t l q =
      let f : (found || (is_seqcst && y.is_seqcst)) ≡ false =
        Candidate-found (found || (is_seqcst && y.is_seqcst)) b k e (h.1) g t in
      ap (λ z. z.is_seqcst) (sym (some-injective _ _ q)) ∙ ground arith
  Candidate-last found (y ∷ b) (suc k) (suc j) e x h g t l q =
      Candidate-last (found || (is_seqcst && y.is_seqcst)) b k j e x (h.1) g t (omega arith) q

  to_Candidate :
      (found : Bool) (b : StoreBuffer Span Scalar) (k : ℕ)
      → Allowed b k
      → ((e : StoreElement Span Scalar)
          → get_elem? b k ≡ some e
          → (is_seqcst && e.is_seqcst) ≡ true
          → found ≡ false)
      → Candidate found b k
  unfolding Candidate
  to_Candidate found [] k a h = absurd (omega (arith, a.in_range))
  to_Candidate found (e ∷ b) zero a h = unmarked (Bool-cases (is_seqcst && e.is_seqcst)) (h e refl)
    where
      unmarked :
          (((is_seqcst && e.is_seqcst) ≡ true) ⊎ ((is_seqcst && e.is_seqcst) ≡ false))
          → ((is_seqcst && e.is_seqcst) ≡ true → found ≡ false)
          → (is_seqcst && e.is_seqcst && found) ≡ false
      unmarked (inl y) f = let g : found ≡ false = f y in ground arith
      unmarked (inr d) f = ground arith
  to_Candidate found (e ∷ b) (suc k) a h = (
    a.searched_to 0 e (omega arith) refl,
    to_Candidate (found || (is_seqcst && e.is_seqcst)) b k
        (record {
          in_range = omega (arith, a.in_range);
          searched_to = λ j x l g. a.searched_to (suc j) x (omega arith) g;
          last_sc_only = λ j x y g t l q. a.last_sc_only (suc j) x y g t (omega arith) q;
        })
        (λ x g t.
          let f : found ≡ false = h x g t in
          let m : e.is_seqcst ≡ false = a.last_sc_only 0 x e g t (omega arith) refl in
          ground arith),
  )

  Candidate-Allowed : (b : StoreBuffer Span Scalar) (k : ℕ) → Candidate false b k → Allowed b k
  Candidate-Allowed b k h = record {
    in_range = Candidate-in_range false b k h;
    searched_to = λ j e l g. Candidate-searched false b k j e h l g;
    last_sc_only = λ j e x g t l q. Candidate-last false b k j e x h g t l q;
  }

  Member-Allowed :
      (b : StoreBuffer Span Scalar) (k : ℕ) → Member k (candidates is_seqcst clocks b) → Allowed b k
  unfolding candidates
  Member-Allowed b k m =
      let r = Member-Candidate false 0 k b m in
      subst (Allowed b) (omega (arith, r.1)) (Candidate-Allowed b (r.0) (r.2))

  Allowed-Member :
      (b : StoreBuffer Span Scalar) (k : ℕ) → Allowed b k → Member k (candidates is_seqcst clocks b)
  unfolding candidates
  Allowed-Member b k a =
      subst (λ m. Member m (last_sc is_seqcst false (searched is_seqcst clocks 0 b))) (omega arith)
        (Candidate-Member false 0 k b (to_Candidate false b k a (λ e g t. refl)))

  -- In a buffer that is not empty, a load always finds a store, and it is one that may be read. Any
  -- store that may be read is the one chosen for some random number.
  pub fetch_store_lem :
      (b : StoreBuffer Span Scalar)
      → 0 < length b
      → ((r : ℕ) → Returns (fetch_store is_seqcst clocks r b) (Allowed b))
        × ((k : ℕ) → Allowed b k → (r : ℕ) × (fetch_store is_seqcst clocks r b ≡ ret k))
  unfolding fetch_store
  fetch_store_lem b n = (
    λ r.
        let g =
          choose-Member r (candidates is_seqcst clocks b) 0 (Allowed-Member b 0 latest-Allowed) in
        rw (g.1) (Member-Allowed b (g.0) (g.2)),
    λ k a.
        let g = Member-choose (candidates is_seqcst clocks b) k (Allowed-Member b k a) in
        (g.0, rw (g.1) refl),
  )
    where
      latest-Allowed : Allowed b 0
      latest-Allowed = record {
        in_range = n;
        searched_to = λ j e l g. absurd (omega (arith, l));
        last_sc_only = λ j e x g t l q. absurd (omega (arith, l));
      }
