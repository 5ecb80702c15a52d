-- ===== src/WeakMemory/Coherence.antt =====
-- weak_memory.rs: coherence, over any stores and loads of the buffer.
use miri.Base.{
  ℕ, zero, suc, ◌-◌, ◌≤◌, ◌≡◌, refl, sym, ap, ◌∙◌, subst, ◌⊎◌, inl, inr, Bool, true, false, ◌==◌,
  leb, if◌then◌else◌, some, List, [], ◌∷◌, length, get_elem?, set_elem, get-set_elem, get-take, map,
  Bool-cases, arith,
}
use mathlib.Core.Option.{some-injective}
use miri.VectorClock.Timestamp.{Spans, VTimestamp, time}
use miri.VectorClock.{VClock, at}
use miri.DataRace.Cell.{ThreadClockSet}
use miri.DataRace.History.{tm}
use miri.WeakMemory.{
  StoreElement, StoreBuffer, try_insert, any_load_in, in_clock, stops, load_impl,
  read_from_last_store, new_store, mark_sc, make_room, store_impl, store_buffer_limit,
}

module _ {Span : Type 0} ⦃s : Spans Span⦄ where
  -- a load of thread `i` at or before its time `t` is recorded
  abbrev pub HasLoad : ℕ → ℕ → List (ℕ × VTimestamp Span) → Type 0
  HasLoad i t [] = ⊥
  HasLoad i t ((j, u) ∷ l) = ((j ≡ i) × (time u ≤ t)) ⊎ HasLoad i t l

  HasLoad-try_insert :
      (i t : ℕ) (l : List (ℕ × VTimestamp Span)) (index : ℕ) (u : VTimestamp Span)
      → HasLoad i t l
      → HasLoad i t (try_insert l index u)
  HasLoad-try_insert i t [] index u h = absurd h
  HasLoad-try_insert i t ((j, v) ∷ l) index u (inl p) = elim (Bool-cases (j == index)) [
    | inl y ↦ rw (y) (inl p)
    | inr d ↦ rw (d) (inl p)
  ]
  HasLoad-try_insert i t ((j, v) ∷ l) index u (inr h) = elim (Bool-cases (j == index)) [
    | inl y ↦ rw (y) (inr h)
    | inr d ↦ rw (d) (inr (HasLoad-try_insert i t l index u h))
  ]

  -- the loads of a thread that are recorded were made at or before its time
  abbrev pub LoadsUpTo : ℕ → ℕ → List (ℕ × VTimestamp Span) → Type 0
  LoadsUpTo i t [] = Unit
  LoadsUpTo i t ((j, u) ∷ l) = (j ≡ i → time u ≤ t) × LoadsUpTo i t l

  pub try_insert-HasLoad :
      (index t : ℕ) (l : List (ℕ × VTimestamp Span)) (u : VTimestamp Span)
      → LoadsUpTo index t l
      → time u ≤ t
      → HasLoad index t (try_insert l index u)
  try_insert-HasLoad index t [] u h b = inl (refl, b)
  try_insert-HasLoad index t ((j, v) ∷ l) u h b = elim (Bool-cases (j == index)) [
    | inl y ↦ let q : j ≡ index = ground arith in rw (y) (inl (q, h.0 q))
    | inr d ↦ rw (d) (inr (try_insert-HasLoad index t l u (h.1) b))
  ]

  -- a load that is recorded in a clock that has its time
  any_load_in_lem :
      (i t : ℕ) (l : List (ℕ × VTimestamp Span)) (c : VClock Span)
      → HasLoad i t l
      → t ≤ tm c i
      → any_load_in l c ≡ true
  any_load_in_lem i t [] c h b = absurd h
  any_load_in_lem i t ((j, u) ∷ l) c (inl p) b =
      let q : tm c j ≡ tm c i = ap (λ n. tm c n) (p.0) in
      let y : in_clock u c j ≡ true = ground (arith, q, p.1) in rw (y) refl
  any_load_in_lem i t ((j, u) ∷ l) c (inr h) b =
      let y : any_load_in l c ≡ true = any_load_in_lem i t l c h b in ground arith

module _ {Span Scalar : Type 0} ⦃s : Spans Span⦄ where
  -- thread `i` has stored or loaded the element at or before its time `t`
  abbrev pub Has : ℕ → ℕ → StoreElement Span Scalar → Type 0
  Has i t e =
      ((e.store_thread ≡ i) × (time e.store_timestamp ≤ t)) ⊎ HasLoad i t e.load_info.timestamps

  -- so it is at the position, unless the buffer has dropped that store
  abbrev pub HasAt : ℕ → ℕ → ℕ → StoreBuffer Span Scalar → Type 0
  HasAt i t p b = (e : StoreElement Span Scalar) → get_elem? b p ≡ some e → Has i t e

  -- a load after that finds nothing older
  pub Has-stops :
      (i t : ℕ) (is_seqcst : Bool) (clocks : ThreadClockSet Span) (e : StoreElement Span Scalar)
      → Has i t e
      → t ≤ tm clocks.clock i
      → stops is_seqcst clocks e ≡ true
  unfolding stops
  Has-stops i t is_seqcst clocks e (inl p) b =
      let q : tm clocks.clock e.store_thread ≡ tm clocks.clock i =
        ap (λ n. tm clocks.clock n) (p.0) in
      let y : in_clock e.store_timestamp clocks.clock e.store_thread ≡ true =
        ground (arith, q, p.1) in
      rw (y) refl
  Has-stops i t is_seqcst clocks e (inr h) b =
      let y : any_load_in e.load_info.timestamps clocks.clock ≡ true =
        any_load_in_lem i t e.load_info.timestamps clocks.clock h b in
      ground arith

  Has-load_impl :
      (i t : ℕ) (index : ℕ) (clocks : ThreadClockSet Span) (is_seqcst : Bool)
      (e : StoreElement Span Scalar)
      → Has i t e
      → Has i t (load_impl index clocks is_seqcst e)
  unfolding load_impl
  Has-load_impl i t index clocks is_seqcst e (inl p) = inl p
  Has-load_impl i t index clocks is_seqcst e (inr h) =
      inr (HasLoad-try_insert i t e.load_info.timestamps index (at clocks.clock index) h)

  Has-mark_sc :
      (i t : ℕ) (c : VClock Span) (e : StoreElement Span Scalar) → Has i t e → Has i t (mark_sc c e)
  Has-mark_sc i t c e h = elim (Bool-cases (in_clock e.store_timestamp c e.store_thread)) [
    | inl y ↦ rw (y) h
    | inr d ↦ elim (Bool-cases (any_load_in e.load_info.timestamps c)) [
      | inl y ↦ rw (d, y) h
      | inr f ↦ rw (d, f) h
    ]
  ]

  HasAt-map :
      (i t p : ℕ) (c : VClock Span) (b : StoreBuffer Span Scalar)
      → HasAt i t p b
      → HasAt i t p (map (mark_sc c) b)
  HasAt-map i t p c [] h e g = cc
  HasAt-map i t zero c (x ∷ b) h e g =
      subst (Has i t) (some-injective _ _ g) (Has-mark_sc i t c x (h x refl))
  HasAt-map i t (suc p) c (x ∷ b) h e g = HasAt-map i t p c b (λ y k. h y k) e g

  make_room-HasAt :
      (i t p : ℕ) (b : StoreBuffer Span Scalar) → HasAt i t p b → HasAt i t p (make_room b)
  make_room-HasAt i t p b h e g = elim (Bool-cases (leb store_buffer_limit (length b))) [
    | inl y ↦ h e (get-take (length b - 1) b p e (rw y at g))
    | inr d ↦ h e (rw d at g)
  ]

  pub HasAt-store_impl :
      (i t p : ℕ) (val : Scalar) (index : ℕ) (clock : VClock Span) (is_seqcst : Bool)
      (sync : VClock Span) (b : StoreBuffer Span Scalar)
      → HasAt i t p b
      → HasAt i t (suc p) (store_impl val index clock is_seqcst sync b)
  unfolding store_impl
  HasAt-store_impl i t p val index clock true sync b h =
      HasAt-map i t (suc p) clock (new_store val index clock true sync ∷ make_room b)
        (λ e g. make_room-HasAt i t p b h e g)
  HasAt-store_impl i t p val index clock false sync b h = make_room-HasAt i t p b h

  pub store_impl-HasAt :
      (val : Scalar) (index : ℕ) (clock : VClock Span) (is_seqcst : Bool) (sync : VClock Span)
      (b : StoreBuffer Span Scalar)
      → HasAt index (tm clock index) 0 (store_impl val index clock is_seqcst sync b)
  unfolding store_impl
  store_impl-HasAt val index clock true sync b =
      HasAt-map index (tm clock index) 0 clock (new_store val index clock true sync ∷ make_room b)
        (λ e g. subst (Has index (tm clock index)) (some-injective _ _ g) (inl (refl, omega arith)))
  store_impl-HasAt val index clock false sync b =
      λ e g. subst (Has index (tm clock index)) (some-injective _ _ g) (inl (refl, omega arith))

  pub HasAt-set_elem :
      (i t p q index : ℕ) (clocks : ThreadClockSet Span) (is_seqcst : Bool)
      (x : StoreElement Span Scalar) (b : StoreBuffer Span Scalar)
      → get_elem? b q ≡ some x
      → HasAt i t p b
      → HasAt i t p (set_elem b q (load_impl index clocks is_seqcst x))
  HasAt-set_elem i t p q index clocks is_seqcst x b k h e g =
      by_position (sym (get-set_elem b q p (load_impl index clocks is_seqcst x) x k) ∙ g)
        (Bool-cases (q == p))
    where
      by_position :
          (if q == p then some (load_impl index clocks is_seqcst x) else get_elem? b p) ≡ some e
          → ((q == p) ≡ true) ⊎ ((q == p) ≡ false)
          → Has i t e
      by_position z (inl y) =
          let same : q ≡ p = ground arith in
          subst (Has i t) (some-injective _ _ (rw y at z))
            (Has-load_impl i t index clocks is_seqcst x (h x (sym (ap (get_elem? b) same) ∙ k)))
      by_position z (inr d) = h e (rw d at z)

  pub HasAt-latest :
      (i t p index : ℕ) (clocks : ThreadClockSet Span) (is_seqcst : Bool)
      (b : StoreBuffer Span Scalar)
      → HasAt i t p b
      → HasAt i t p (read_from_last_store index clocks is_seqcst b)
  unfolding read_from_last_store
  HasAt-latest i t p index clocks is_seqcst [] h = h
  HasAt-latest i t zero index clocks is_seqcst (x ∷ b) h = λ e g.
      subst (Has i t) (some-injective _ _ g) (Has-load_impl i t index clocks is_seqcst x (h x refl))
  HasAt-latest i t (suc p) index clocks is_seqcst (x ∷ b) h = λ e g. h e g
