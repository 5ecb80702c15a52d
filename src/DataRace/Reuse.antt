-- ===== src/DataRace/Reuse.antt =====
-- data_race.rs: the vector indices that are found for reuse.
use miri.Base.{
  true-ne-false, ℕ, ◌≤◌, ◌<◌, ◌≡◌, ◌≢◌, refl, sym, ◌∙◌, subst, true, false, ◌||◌, leb,
  if◌then◌else◌, Option, none, some, List, [], ◌∷◌, All, get_elem?, ret-injective, Outcome, ret,
  ◌>>=◌, arith, Bool-cases, inl, inr, unwrap,
}
use mathlib.Core.Option.{some-injective}
use miri.VectorClock.Timestamp.{Spans}
use miri.DataRace.Cell.{ThreadClockSet}
use miri.DataRace.History.{tm}
use miri.DataRace.Threads.{GlobalState, contains}
use miri.DataRace.Creation.{find_candidate, reusable}
use miri.DataRace.Epochs.{IsValid, epoch-get}
use miri.DataRace.Joining.{all_from-get}

module _ {Span : Type 0} ⦃s : Spans Span⦄ where
  -- every thread whose index is no candidate has the candidate's time
  abbrev pub IsKnown : GlobalState Span → ℕ → Type 0
  IsKnown g candidate =
      (x y : ThreadClockSet Span) (k : ℕ)
      → get_elem? g.vector_clocks candidate ≡ some x
      → get_elem? g.vector_clocks k ≡ some y
      → contains g.reuse_candidates k ≡ false
      → tm x.clock candidate ≤ tm y.clock candidate

  reusable-IsKnown :
      (g : GlobalState Span) (candidate : ℕ) (x : ThreadClockSet Span)
      → get_elem? g.vector_clocks candidate ≡ some x
      → reusable g candidate (tm x.clock candidate) ≡ true
      → IsKnown g candidate
  reusable-IsKnown g candidate x e r x1 y k e1 f n =
      let h : (leb (tm x.clock candidate) (tm y.clock candidate) || contains g.reuse_candidates k)
          ≡ true =
        all_from-get 0 k k
          (λ i z.
            leb (tm x.clock candidate) (tm z.clock candidate) || contains g.reuse_candidates i)
          g.vector_clocks y (omega arith) r f in
      subst (λ z. tm z.clock candidate ≤ tm y.clock candidate) (some-injective x x1 (sym e ∙ e1))
        (ground (arith, h, n))

  find_first :
      (g : GlobalState Span) (d candidate : ℕ) (rest : Outcome (Option ℕ))
      → (rest ≡ ret (some candidate) → IsKnown g candidate)
      → (o : Option (ThreadClockSet Span)) → get_elem? g.vector_clocks d ≡ o
      → (unwrap o >>= λ x. if reusable g d (tm x.clock d) then ret (some d) else rest)
        ≡ ret (some candidate)
      → IsKnown g candidate
  find_first g d candidate rest q none e h = cc
  find_first g d candidate rest q (some x) e h = elim (Bool-cases (reusable g d (tm x.clock d))) [
    | inl r ↦
        subst (IsKnown g)
          (some-injective d candidate (
            ret-injective
              (subst (λ b. (if b then ret (some d) else rest) ≡ ret (some candidate)) r h)))
          (reusable-IsKnown g d x e r)
    | inr n ↦ q (subst (λ b. (if b then ret (some d) else rest) ≡ ret (some candidate)) n h)
  ]

  -- Where a vector index is found for reuse, every thread whose index is not a candidate itself has the
  -- last time of the thread that used it, so that all of that thread's accesses happen before what
  -- others still do.
  pub find_candidate_lem :
      (g : GlobalState Span) (l : List ℕ) (candidate : ℕ)
      → find_candidate g l ≡ ret (some candidate)
      → IsKnown g candidate
  unfolding find_candidate
  find_candidate_lem g [] candidate h = cc
  find_candidate_lem g (d ∷ l) candidate h =
      find_first g d candidate (find_candidate g l) (find_candidate_lem g l candidate)
        (get_elem? g.vector_clocks d) refl h

  -- the index is a candidate that is in use by clocks with a time
  abbrev pub IsCandidate : GlobalState Span → ℕ → Type 0
  IsCandidate g c =
      (contains g.reuse_candidates c ≡ true)
      × ((x : ThreadClockSet Span) × (get_elem? g.vector_clocks c ≡ some x) × (0 < tm x.clock c))

  not_reusable :
      (g : GlobalState Span) (c k : ℕ) (x y : ThreadClockSet Span)
      → IsValid g
      → get_elem? g.vector_clocks c ≡ some x
      → 0 < tm x.clock c
      → get_elem? g.vector_clocks k ≡ some y
      → contains g.reuse_candidates k ≡ false
      → c ≢ k
      → reusable g c (tm x.clock c) ≡ false
  not_reusable g c k x y v e b f n ne = elim (Bool-cases (reusable g c (tm x.clock c))) [
    | inr q ↦ q
    | inl r ↦
        let p = v.threads k y f in
        absurd (
          omega (
            arith,
            reusable-IsKnown g c x e r x y k e f n,
            p.others c ne,
            epoch-get g.vector_clocks c x e,
            b,
          ))
  ]

  -- Where no clock has a current time of another thread, the times of the candidates are not zero, and
  -- some thread's index is no candidate, no vector index is found for reuse: the time that a candidate
  -- is compared at is one that no other thread can have.
  pub find_candidate-none :
      (g : GlobalState Span) (l : List ℕ) (k : ℕ) (y : ThreadClockSet Span)
      → IsValid g
      → get_elem? g.vector_clocks k ≡ some y
      → contains g.reuse_candidates k ≡ false
      → All (IsCandidate g) l
      → find_candidate g l ≡ ret none
  unfolding find_candidate
  find_candidate-none g [] k y v f n a = refl
  find_candidate-none g (c ∷ l) k y v f n a =
      let x = a.0.1.0 in
      let ne : c ≢ k = λ p.
        true-ne-false
          (sym (a.0.0) ∙ subst (λ i. contains g.reuse_candidates i ≡ false) (sym p) n) in
      rw (a.0.1.1, not_reusable g c k x y v (a.0.1.1) (a.0.1.2) f n ne)
        (find_candidate-none g l k y v f n (a.1))
