-- ===== src/VectorClock/Update.antt =====
-- vector_clock.rs: what the operations that change a clock do to it at every index.
use miri.Base.{
  ℕ, zero, suc, ◌+◌, ◌≤◌, ◌<◌, ◌^◌, max, ◌≡◌, refl, ◌&&◌, [], ◌∷◌, leb, ltb, ◌==◌, arith, panic,
  ret, Returns, if◌then◌else◌, length, lt→ltb, ltb→lt, not_ltb→le, subst, sym, ◌∙◌, ret-injective,
  le→leb, Bool-cases, inl, inr, ◌⊎◌,
}
use miri.VectorClock.Timestamp.{
  Spans, VTimestamp, time, read_type, timestamp_zero, with_time, set_time-eq, time-with_time,
  u32_mod, encode_overflow,
}
use miri.VectorClock.{VClock, at, set_growing, increment_index, join_entry, join, set_at_index}
use miri.VectorClock.Canonical.{IsCanonical, IsCanonical-tail, pointwise_le}

module _ {Span : Type 0} ⦃s : Spans Span⦄ where
  pub at-set_growing :
      (c : VClock Span) (i j : ℕ) (f : VTimestamp Span → VTimestamp Span)
      → at (set_growing c i f) j ≡ (if i == j then f (at c i) else at c j)
  unfolding at set_growing
  at-set_growing [] zero zero f = refl
  at-set_growing [] zero (suc j) f = ground arith
  at-set_growing [] (suc i) zero f = ground arith
  at-set_growing [] (suc i) (suc j) f = ground (arith, at-set_growing [] i j f)
  at-set_growing (t ∷ ts) zero zero f = refl
  at-set_growing (t ∷ ts) zero (suc j) f = ground arith
  at-set_growing (t ∷ ts) (suc i) zero f = ground arith
  at-set_growing (t ∷ ts) (suc i) (suc j) f = ground (arith, at-set_growing ts i j f)

  length-set_growing :
      (c : VClock Span) (i : ℕ) (f : VTimestamp Span → VTimestamp Span)
      → 0 < length (set_growing c i f)
  unfolding set_growing
  length-set_growing [] zero f = omega arith
  length-set_growing [] (suc i) f = omega arith
  length-set_growing (t ∷ ts) zero f = omega arith
  length-set_growing (t ∷ ts) (suc i) f = omega arith

  cons-IsCanonical :
      (t : VTimestamp Span) (c : VClock Span) → 0 < length c → IsCanonical c → IsCanonical (t ∷ c)
  cons-IsCanonical t [] l h = elim l [ ]
  cons-IsCanonical t (u ∷ c) l h = h

  -- the new entry is not 0, or it is no less than one that was there
  abbrev Keeps : VClock Span → ℕ → VTimestamp Span → Type 0
  Keeps c i new = (0 < time new) ⊎ ((i < length c) × (time (at c i) ≤ time new))

  set_growing-IsCanonical :
      (c : VClock Span) (i : ℕ) (f : VTimestamp Span → VTimestamp Span)
      → IsCanonical c
      → Keeps c i (f (at c i))
      → IsCanonical (set_growing c i f)
  unfolding at set_growing
  set_growing-IsCanonical [] zero f h k = omega arith
  set_growing-IsCanonical [] (suc i) f h k =
      cons-IsCanonical timestamp_zero (set_growing [] i f) (length-set_growing [] i f) (
        set_growing-IsCanonical [] i f tt (elim k [ inl p ↦ inl p | inr q ↦ absurd (omega arith) ]))
  set_growing-IsCanonical (t ∷ []) zero f h k = omega arith
  set_growing-IsCanonical (t ∷ u ∷ ts) zero f h k = h
  set_growing-IsCanonical (t ∷ ts) (suc i) f h k =
      cons-IsCanonical t (set_growing ts i f) (length-set_growing ts i f) (
        set_growing-IsCanonical ts i f (IsCanonical-tail t ts h)
          (elim k [ inl p ↦ inl p | inr q ↦ inr (omega arith, q.1) ]))

  time-join_entry : (l r : VTimestamp Span) → time (join_entry l r) ≡ max (time l) (time r)
  unfolding join_entry
  time-join_entry l r = ground arith

  -- The join of two clocks has at every index the greater of their times.
  pub at-join :
      (a b : VClock Span) (i : ℕ) → time (at (join a b) i) ≡ max (time (at a i)) (time (at b i))
  unfolding at join
  at-join a [] i = omega arith
  at-join [] (r ∷ rs) zero = time-join_entry timestamp_zero r
  at-join [] (r ∷ rs) (suc i) = at-join [] rs i
  at-join (l ∷ ls) (r ∷ rs) zero = time-join_entry l r
  at-join (l ∷ ls) (r ∷ rs) (suc i) = at-join ls rs i

  -- The join of canonical clocks is canonical.
  pub join-IsCanonical :
      (a b : VClock Span) → IsCanonical a → IsCanonical b → IsCanonical (join a b)
  unfolding join
  join-IsCanonical a [] c d = c
  join-IsCanonical [] (r ∷ []) c d = omega (arith, time-join_entry timestamp_zero r)
  join-IsCanonical [] (r ∷ q ∷ rs) c d = join-IsCanonical [] (q ∷ rs) c d
  join-IsCanonical (l ∷ []) (r ∷ []) c d = omega (arith, time-join_entry l r)
  join-IsCanonical (l ∷ []) (r ∷ q ∷ rs) c d = join-IsCanonical [] (q ∷ rs) tt d
  join-IsCanonical (l ∷ k ∷ ls) (r ∷ []) c d = c
  join-IsCanonical (l ∷ k ∷ ls) (r ∷ q ∷ rs) c d = join-IsCanonical (k ∷ ls) (q ∷ rs) c d

  -- The join is the least upper bound: it is below a clock exactly when both clocks are.
  pub join_least :
      (a b c : VClock Span) → pointwise_le (join a b) c ≡ (pointwise_le a c && pointwise_le b c)
  unfolding pointwise_le join
  join_least a [] c = ground arith
  join_least [] (r ∷ rs) [] = ground (arith, time-join_entry timestamp_zero r, join_least [] rs [])
  join_least [] (r ∷ rs) (x ∷ c) =
      ground (arith, time-join_entry timestamp_zero r, join_least [] rs c)
  join_least (l ∷ ls) (r ∷ rs) [] = ground (arith, time-join_entry l r, join_least ls rs [])
  join_least (l ∷ ls) (r ∷ rs) (x ∷ c) = ground (arith, time-join_entry l r, join_least ls rs c)

  -- the entry that `increment_index` writes
  abbrev incremented : VTimestamp Span → Span → VTimestamp Span
  incremented v span =
      let t = with_time v (time v + 1) in if s.is_dummy span then t else record t { span = span }

  increment_index-eq :
      (c : VClock Span) (idx : ℕ) (span : Span)
      → time (at c idx) + 1 < 2 ^ 31
      → increment_index c idx span ≡ ret (set_growing c idx λ _. incremented (at c idx) span)
  unfolding increment_index
  increment_index-eq c idx span b = rw (
    lt→ltb (time (at c idx) + 1) u32_mod (omega arith),
    set_time-eq (at c idx) (time (at c idx) + 1) b,
  )

  time-incremented : (v : VTimestamp Span) (span : Span) → time (incremented v span) ≡ time v + 1
  time-incremented v span = ground (arith, time-with_time v (time v + 1))

  -- Incrementing a canonical clock at an index whose time is below 2 ^ 31 - 1 gives a canonical clock
  -- with that time one greater and the others as they were.
  pub increment_index_lem :
      (c : VClock Span) (idx i : ℕ) (span : Span)
      → IsCanonical c
      → time (at c idx) + 1 < 2 ^ 31
      → Returns (increment_index c idx span) λ d.
        IsCanonical d × (time (at d i) ≡ (if idx == i then time (at c i) + 1 else time (at c i)))
  unfolding increment_index
  increment_index_lem c idx i span h b =
      let new = incremented (at c idx) span in
      rw (increment_index-eq c idx span b) (
        set_growing-IsCanonical c idx (λ _. new) h
            (inl (omega (arith, time-incremented (at c idx) span))),
        ground (arith, at-set_growing c idx i (λ _. new), time-incremented (at c idx) span),
      )

  pub increment_index_times :
      (c : VClock Span) (idx : ℕ) (span : Span)
      → time (at c idx) + 1 < 2 ^ 31
      → Returns
          (increment_index c idx span)
          λ d. (i : ℕ) → time (at d i) ≡ (if idx == i then time (at c i) + 1 else time (at c i))
  unfolding increment_index
  increment_index_times c idx span b =
      let new = incremented (at c idx) span in
      rw (increment_index-eq c idx span b)
        (λ i. ground (arith, at-set_growing c idx i (λ _. new), time-incremented (at c idx) span))

  -- At a time of 2 ^ 31 - 1 or more the increment panics.
  pub increment_index_overflow :
      (c : VClock Span) (idx : ℕ) (span : Span)
      → 2 ^ 31 ≤ time (at c idx) + 1
      → increment_index c idx span ≡ panic
  unfolding increment_index
  increment_index_overflow c idx span b = elim (Bool-cases (ltb (time (at c idx) + 1) u32_mod)) [
    | inl e ↦ rw (e, encode_overflow (time (at c idx) + 1) (read_type (at c idx)) b)
    | inr e ↦ rw e
  ]

  not_both : {d : VClock Span} → ¬ (panic ≡ ret d)
  not_both p = cc

  -- Whenever the increment returns, no time has gone down.
  pub at-increment_index :
      (c : VClock Span) (idx i : ℕ) (span : Span) {d : VClock Span}
      → increment_index c idx span ≡ ret d
      → time (at c i) ≤ time (at d i)
  at-increment_index c idx i span e = elim (Bool-cases (ltb (time (at c idx) + 1) (2 ^ 31))) [
    | inl h ↦
        let new = incremented (at c idx) span in
        let fits = ltb→lt (time (at c idx) + 1) (2 ^ 31) h in
        subst (λ x. time (at c i) ≤ time (at x i))
          (ret-injective (sym (increment_index-eq c idx span fits) ∙ e))
          (ground (arith, at-set_growing c idx i (λ _. new), time-incremented (at c idx) span))
    | inr h ↦ absurd (not_both (sym (increment_index_overflow c idx span (not_ltb→le _ _ h)) ∙ e))
  ]

  time-at_beyond : (c : VClock Span) (i : ℕ) → length c ≤ i → time (at c i) ≡ 0
  unfolding at
  time-at_beyond [] i h = omega arith
  time-at_beyond (t ∷ ts) zero h = absurd (omega arith)
  time-at_beyond (t ∷ ts) (suc i) h = time-at_beyond ts i (omega arith)

  -- Setting an index of a canonical clock to the time that another clock has there, which must be no
  -- smaller, gives a canonical clock with that time, and leaves the other times as they were.
  pub set_at_index_lem :
      (c other : VClock Span) (idx i : ℕ)
      → IsCanonical c
      → time (at c idx) ≤ time (at other idx)
      → Returns (set_at_index c other idx) λ d.
        IsCanonical d × (time (at d i) ≡ (if idx == i then time (at other i) else time (at c i)))
  unfolding set_at_index
  set_at_index_lem c other idx i h b =
      let new = at other idx in
      let write = λ (prev : VTimestamp Span).
        let r : VTimestamp Span = record new { span = s.substitute_dummy new.span prev.span } in
        r in
      elim (Bool-cases (time new == 0 && leb (length c) idx)) [
        | inl e ↦ rw e (h, ground (arith, time-at_beyond c i))
        | inr e ↦
            rw (e, le→leb (time (at c idx)) (time new) b)
              (
                set_growing-IsCanonical c idx write h (ground arith),
                ground (arith, at-set_growing c idx i write),
              )
      ]
