-- ===== src/RangeObjectMap/Remove.antt =====
-- range_object_map.rs: removal of the objects that overlap with a range.
use miri.Base.{
  ℕ, zero, suc, ◌≤◌, ◌<◌, ◌≡◌, refl, ap, subst, true, false, ltb, leb, ◌&&◌, if◌then◌else◌, List,
  [], ◌∷◌, ◌++◌, get_elem?, get-in_range, get-in_bounds, length, take, drop, some, All, All-get,
  ret, arith, Bool-cases, inl, inr,
}
use mathlib.Core.Option.{some-injective}
use miri.RangeObjectMap.{
  AllocRange, end, Elem, empty, perfectly_overlapping, imperfectly_overlapping, remove_pos_range,
  remove_from_pos,
}
use miri.RangeObjectMap.Search.{IsSorted}
use miri.RangeObjectMap.Access.{overlaps, Spans, Splits, AccessSpec}
use miri.RangeObjectMap.Insert.{inserted}

module _ {T : Type 0} where
  -- the elements that share no byte with the range
  abbrev pub kept : List (Elem T) → AllocRange → List (Elem T)
  kept [] range = []
  kept (e ∷ v) range = let rest = kept v range in if overlaps e range then rest else e ∷ rest

  All-kept :
      (P : Elem T → Type 0) (v : List (Elem T)) (range : AllocRange)
      → All P v
      → All P (kept v range)
  All-kept P [] range a = tt
  All-kept P (e ∷ v) range a = elim (Bool-cases (overlaps e range)) [
    | inl y ↦ rw (y) (All-kept P v range a.1)
    | inr d ↦ rw (d) (a.0, All-kept P v range a.1)
  ]

  pub kept-IsSorted :
      (v : List (Elem T)) (range : AllocRange) → IsSorted v → IsSorted (kept v range)
  kept-IsSorted [] range s = tt
  kept-IsSorted (e ∷ v) range s = elim (Bool-cases (overlaps e range)) [
    | inl y ↦ rw (y) (kept-IsSorted v range s.2)
    | inr d ↦
        rw (d)
          (s.0, All-kept (λ o. end e.range ≤ o.range.start) v range s.1, kept-IsSorted v range s.2)
  ]

  kept-apart :
      (v : List (Elem T)) (range : AllocRange) → All (λ e. overlaps e range ≡ false) (kept v range)
  kept-apart [] range = tt
  kept-apart (e ∷ v) range = elim (Bool-cases (overlaps e range)) [
    | inl y ↦ rw (y) (kept-apart v range)
    | inr d ↦ rw (d) (d, kept-apart v range)
  ]

  apart-kept :
      (v : List (Elem T)) (range : AllocRange)
      → All (λ e. overlaps e range ≡ false) v
      → kept v range ≡ v
  apart-kept [] range a = refl
  apart-kept (e ∷ v) range a =
      let d : overlaps e range ≡ false = a.0 in rw (d) (ap (λ w. e ∷ w) (apart-kept v range a.1))

  pub kept-kept :
      (v : List (Elem T)) (range : AllocRange) → kept (kept v range) range ≡ kept v range
  kept-kept v range = apart-kept (kept v range) range (kept-apart v range)

  unspanned-kept :
      (v : List (Elem T)) (range : AllocRange)
      → ((i : ℕ) (e : Elem T) → get_elem? v i ≡ some e → overlaps e range ≡ false)
      → kept v range ≡ v
  unspanned-kept [] range h = refl
  unspanned-kept (e ∷ v) range h =
      rw (h 0 e refl) (ap (λ w. e ∷ w) (unspanned-kept v range (λ i x g. h (suc i) x g)))

  pub empty-kept :
      (v : List (Elem T)) (range : AllocRange) (pos : ℕ)
      → AccessSpec v range (empty pos)
      → kept v range ≡ v
  empty-kept v range pos a = unspanned-kept v range (λ i e g. ground (arith, a.0 i e g))

  pub kept-inserted :
      (v : List (Elem T)) (pos : ℕ) (x : Elem T) (range : AllocRange)
      → overlaps x range ≡ true
      → kept (inserted v pos x) range ≡ kept v range
  kept-inserted v zero x range y = rw (y) refl
  kept-inserted [] (suc pos) x range y = rw (y) refl
  kept-inserted (e ∷ v) (suc pos) x range y = elim (Bool-cases (overlaps e range)) [
    | inl z ↦ rw (z) (kept-inserted v pos x range y)
    | inr d ↦ rw (d) (ap (λ w. e ∷ w) (kept-inserted v pos x range y))
  ]

  -- what is left where the elements at the positions of all overlaps are removed
  cut-kept :
      (v : List (Elem T)) (range : AllocRange) (first last : ℕ)
      → first ≤ last
      → Spans v range first last
      → take first v ++ drop last v ≡ kept v range
  cut-kept [] range zero zero h s = refl
  cut-kept [] range zero (suc last) h s = refl
  cut-kept [] range (suc first) zero h s = refl
  cut-kept [] range (suc first) (suc last) h s = refl
  cut-kept (e ∷ v) range zero zero h s =
      let d : overlaps e range ≡ false = ground (arith, s 0 e refl) in
      rw (d)
        (ap (λ w. e ∷ w) (cut-kept v range zero zero h (λ i x g. ground (arith, s (suc i) x g))))
  cut-kept (e ∷ v) range zero (suc last) h s =
      let y : overlaps e range ≡ true = ground (arith, s 0 e refl) in
      rw (y) (cut-kept v range zero last (omega arith) (λ i x g. ground (arith, s (suc i) x g)))
  cut-kept (e ∷ v) range (suc first) zero h s = absurd (omega arith)
  cut-kept (e ∷ v) range (suc first) (suc last) h s =
      let d : overlaps e range ≡ false = ground (arith, s 0 e refl) in
      rw (d) (
        ap (λ w. e ∷ w)
          (cut-kept v range first last (omega arith) (λ i x g. ground (arith, s (suc i) x g))))

  pub remove_pos_range-eq :
      (v : List (Elem T)) (range : AllocRange) (first last : ℕ)
      → AccessSpec v range (imperfectly_overlapping first last)
      → remove_pos_range v first last ≡ ret (kept v range)
  unfolding remove_pos_range
  remove_pos_range-eq v range first last a =
      let y : (leb first last && leb last (length v)) ≡ true = ground (arith, a.0, a.2) in
      rw (y) (ap ret (cut-kept v range first last (omega (arith, a.0)) (a.1)))

  -- an object in order overlaps with its own range only
  own-Spans :
      (v : List (Elem T)) (range : AllocRange) (pos : ℕ) {e : Elem T}
      → IsSorted v
      → get_elem? v pos ≡ some e
      → e.range.start ≡ range.start
      → e.range.size ≡ range.size
      → Spans v range pos (suc pos)
  own-Spans [] range pos s g p q i y k = cc
  own-Spans (x ∷ v) range zero {e} s g p q zero y k =
      let a : x ≡ e = some-injective _ _ g in
      let b : x ≡ y = some-injective _ _ k in
      subst (λ z. overlaps z range ≡ (leb 0 0 && ltb 0 1)) b
        (ground (arith, s.0, ap (λ z. z.range.start) a, ap (λ z. z.range.size) a, p, q))
  own-Spans (x ∷ v) range zero {e} s g p q (suc i) y k =
      let a : x ≡ e = some-injective _ _ g in
      let above : end x.range ≤ y.range.start =
        All-get (λ o. end x.range ≤ o.range.start) v i s.1 k in
      ground (arith, above, ap (λ z. z.range.start) a, ap (λ z. z.range.size) a, p, q)
  own-Spans (x ∷ v) range (suc pos) {e} s g p q zero y k =
      let b : x ≡ y = some-injective _ _ k in
      let above : end x.range ≤ e.range.start =
        All-get (λ o. end x.range ≤ o.range.start) v pos s.1 g in
      subst (λ z. overlaps z range ≡ (leb (suc pos) 0 && ltb 0 (suc (suc pos)))) b
        (ground (arith, above, p, q))
  own-Spans (x ∷ v) range (suc pos) s g p q (suc i) y k =
      ground (arith, own-Spans v range pos s.2 g p q i y k)

  pub remove_from_pos-eq :
      (v : List (Elem T)) (range : AllocRange) (pos : ℕ)
      → IsSorted v
      → AccessSpec v range (perfectly_overlapping pos)
      → remove_from_pos v pos ≡ ret (kept v range)
  unfolding remove_from_pos
  remove_from_pos-eq v range pos s (e, g, p, q) =
      let y : ltb pos (length v) ≡ true = ground (arith, get-in_bounds v pos g) in
      rw (y) (ap ret (cut-kept v range pos (suc pos) (omega arith) (own-Spans v range pos s g p q)))

  -- where the first of the overlaps was, the range fits between what is left
  gap-Splits :
      (v : List (Elem T)) (range : AllocRange) (first last : ℕ)
      → IsSorted v
      → Spans v range first last
      → first < last
      → last ≤ length v
      → Splits (kept v range) range first
  gap-Splits [] range first last s a h b i e g = cc
  gap-Splits (x ∷ v) range zero zero s a h b i e g = absurd (omega arith)
  gap-Splits (x ∷ v) range zero (suc last) s a h b i e g =
      let y : overlaps x range ≡ true = ground (arith, a 0 x refl) in
      let above : end x.range ≤ e.range.start =
        All-get (λ o. end x.range ≤ o.range.start) (kept v range) i
          (All-kept (λ o. end x.range ≤ o.range.start) v range s.1) (rw y at g) in
      ground (arith, above, y)
  gap-Splits (x ∷ v) range (suc first) zero s a h b i e g = absurd (omega arith)
  gap-Splits (x ∷ v) range (suc first) (suc last) s a h b zero e g =
      let d : overlaps x range ≡ false = ground (arith, a 0 x refl) in
      let f = get-in_range v first (omega (arith, h, b)) in
      let y : overlaps f.0 range ≡ true = ground (arith, a (suc first) f.0 f.1, h) in
      let above : end x.range ≤ f.0.range.start =
        All-get (λ o. end x.range ≤ o.range.start) v first s.1 f.1 in
      let z : x ≡ e = some-injective _ _ (rw d at g) in
      subst (λ o. ltb 0 (suc first) ≡ leb (end o.range) range.start) z (ground (arith, above, y, d))
  gap-Splits (x ∷ v) range (suc first) (suc last) s a h b (suc i) e g =
      let d : overlaps x range ≡ false = ground (arith, a 0 x refl) in
      let rest =
        gap-Splits v range first last s.2 (λ j o k. ground (arith, a (suc j) o k))
          (omega (arith, h)) (omega (arith, b)) i e (rw d at g) in
      ground (arith, rest)

  gap-in_bounds :
      (v : List (Elem T)) (range : AllocRange) (first last : ℕ)
      → Spans v range first last
      → first < last
      → last ≤ length v
      → first ≤ length (kept v range)
  gap-in_bounds v range zero last a h b = omega arith
  gap-in_bounds [] range (suc first) last a h b = absurd (omega (arith, h, b))
  gap-in_bounds (x ∷ v) range (suc first) zero a h b = absurd (omega arith)
  gap-in_bounds (x ∷ v) range (suc first) (suc last) a h b =
      let d : overlaps x range ≡ false = ground (arith, a 0 x refl) in
      let rest : first ≤ length (kept v range) =
        gap-in_bounds v range first last (λ j o k. ground (arith, a (suc j) o k)) (omega (arith, h))
          (omega (arith, b)) in
      rw (d) (omega (arith, rest))

  pub gap-AccessSpec :
      (v : List (Elem T)) (range : AllocRange) (first last : ℕ)
      → IsSorted v
      → AccessSpec v range (imperfectly_overlapping first last)
      → AccessSpec (kept v range) range (empty first)
  gap-AccessSpec v range first last s a = (
    λ i e g.
        ground
          (arith, All-get (λ o. overlaps o range ≡ false) (kept v range) i (kept-apart v range) g),
    gap-Splits v range first last s (a.1) (a.0) (a.2),
    gap-in_bounds v range first last (a.1) (a.0) (a.2),
  )
