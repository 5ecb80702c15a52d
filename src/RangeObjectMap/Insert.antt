-- ===== src/RangeObjectMap/Insert.antt =====
-- range_object_map.rs: insertion at the position that `access_type` gives.
use miri.Base.{
  ℕ, zero, suc, ◌+◌, ◌-◌, ◌≤◌, ◌<◌, ◌≡◌, refl, true, ltb, leb, if◌then◌else◌, List, [], ◌∷◌,
  get_elem?, length, some, All, ret, Returns, arith, Bool-cases, inl, inr, ltb→lt,
}
use miri.RangeObjectMap.{
  AllocRange, end, Elem, empty, insert, ends_before, starts_after, insert_at_pos,
}
use miri.RangeObjectMap.Search.{IsSorted}
use miri.RangeObjectMap.Access.{AccessSpec}

module _ {T : Type 0} where
  -- the list with `x` at the position
  abbrev pub inserted : List (Elem T) → ℕ → Elem T → List (Elem T)
  inserted v zero x = x ∷ v
  inserted [] (suc pos) x = x ∷ []
  inserted (e ∷ v) (suc pos) x = e ∷ inserted v pos x

  insert-eq :
      (v : List (Elem T)) (pos : ℕ) (x : Elem T)
      → pos ≤ length v
      → insert v pos x ≡ ret (inserted v pos x)
  unfolding insert
  insert-eq v zero x h = refl
  insert-eq [] (suc pos) x h = absurd (omega arith)
  insert-eq (e ∷ v) (suc pos) x h = rw (insert-eq v pos x (omega arith)) refl

  length-inserted :
      (v : List (Elem T)) (pos : ℕ) (x : Elem T) → length (inserted v pos x) ≡ suc (length v)
  length-inserted v zero x = refl
  length-inserted [] (suc pos) x = refl
  length-inserted (e ∷ v) (suc pos) x = omega (arith, length-inserted v pos x)

  get_elem?-inserted :
      (v : List (Elem T)) (pos : ℕ) (x : Elem T)
      → pos ≤ length v
      → get_elem? (inserted v pos x) pos ≡ some x
  get_elem?-inserted v zero x h = refl
  get_elem?-inserted [] (suc pos) x h = absurd (omega arith)
  get_elem?-inserted (e ∷ v) (suc pos) x h = get_elem?-inserted v pos x (omega arith)

  -- the range fits between the elements before the position and those from it on
  abbrev FitsAt : List (Elem T) → ℕ → AllocRange → Type 0
  FitsAt v pos range =
      (i : ℕ) (e : Elem T)
      → get_elem? v i ≡ some e
      → (if ltb i pos then leb (end e.range) range.start else leb (end range) e.range.start) ≡ true

  All-later :
      (v : List (Elem T)) (range : AllocRange)
      → FitsAt v 0 range
      → All (λ o. end range ≤ o.range.start) v
  All-later [] range f = tt
  All-later (e ∷ v) range f =
      (ground (arith, f 0 e refl), All-later v range (λ i o g. ground (arith, f (suc i) o g)))

  All-inserted :
      (n : ℕ) (v : List (Elem T)) (pos : ℕ) (x : Elem T)
      → n ≤ x.range.start
      → All (λ o. n ≤ o.range.start) v
      → All (λ o. n ≤ o.range.start) (inserted v pos x)
  All-inserted n v zero x p a = (p, a)
  All-inserted n [] (suc pos) x p a = (p, tt)
  All-inserted n (e ∷ v) (suc pos) x p a = (a.0, All-inserted n v pos x p a.1)

  inserted-IsSorted :
      (v : List (Elem T)) (pos : ℕ) (x : Elem T)
      → pos ≤ length v
      → 0 < x.range.size
      → IsSorted v
      → FitsAt v pos x.range
      → IsSorted (inserted v pos x)
  inserted-IsSorted v zero x h p s f = (p, All-later v x.range f, s)
  inserted-IsSorted [] (suc pos) x h p s f = absurd (omega arith)
  inserted-IsSorted (e ∷ v) (suc pos) x h p s f = (
    s.0,
    All-inserted (end e.range) v pos x (ground (arith, f 0 e refl)) (s.1),
    inserted-IsSorted v pos x (omega arith) p (s.2) (λ i o g. ground (arith, f (suc i) o g)),
  )

  -- the assertion on the element before, and the one on the element after
  ends_before-inserted :
      (v : List (Elem T)) (pos : ℕ) (x : Elem T)
      → pos < length v
      → FitsAt v (suc pos) x.range
      → ends_before (get_elem? (inserted v (suc pos) x) pos) x.range.start ≡ ret tt
  ends_before-inserted [] pos x h f = absurd (omega arith)
  ends_before-inserted (e ∷ v) zero x h f =
      let b : leb (end e.range) x.range.start ≡ true = f 0 e refl in rw (b) refl
  ends_before-inserted (e ∷ v) (suc pos) x h f =
      ends_before-inserted v pos x (omega arith) (λ i o g. ground (arith, f (suc i) o g))

  starts_after-inserted :
      (v : List (Elem T)) (pos : ℕ) (x : Elem T)
      → pos < length v
      → FitsAt v pos x.range
      → starts_after (get_elem? (inserted v pos x) (suc pos)) (end x.range) ≡ ret tt
  starts_after-inserted [] pos x h f = absurd (omega arith)
  starts_after-inserted (e ∷ v) zero x h f =
      let b : leb (end x.range) e.range.start ≡ true = f 0 e refl in rw (b) refl
  starts_after-inserted (e ∷ v) (suc pos) x h f =
      starts_after-inserted v pos x (omega arith) (λ i o g. ground (arith, f (suc i) o g))

  AccessSpec-FitsAt :
      (v : List (Elem T)) (pos : ℕ) (range : AllocRange)
      → 0 < range.size
      → AccessSpec v range (empty pos)
      → FitsAt v pos range
  AccessSpec-FitsAt v pos range p a i e g = ground (arith, a.0 i e g, a.1 i e g)

  first_check :
      (v : List (Elem T)) (pos : ℕ) (x : Elem T)
      → pos ≤ length v
      → FitsAt v pos x.range
      → (if ltb 0 pos
          then ends_before (get_elem? (inserted v pos x) (pos - 1)) x.range.start
          else ret tt)
        ≡ ret tt
  first_check v zero x h f = refl
  first_check v (suc pos) x h f =
      let back : suc pos - 1 ≡ pos = omega arith in
      let more : ltb 0 (suc pos) ≡ true = ground arith in
      rw (back, more) (ends_before-inserted v pos x (omega arith) f)

  second_check :
      (v : List (Elem T)) (pos : ℕ) (x : Elem T)
      → FitsAt v pos x.range
      → (if ltb pos (length (inserted v pos x) - 1)
          then starts_after (get_elem? (inserted v pos x) (pos + 1)) (end x.range)
          else ret tt)
        ≡ ret tt
  second_check v pos x f =
      let size : length (inserted v pos x) - 1 ≡ length v =
        omega (arith, length-inserted v pos x) in
      let up : pos + 1 ≡ suc pos = omega arith in
      elim (Bool-cases (ltb pos (length v))) [
        | inl b ↦ rw (size, b, up) (starts_after-inserted v pos x (ltb→lt pos (length v) b) f)
        | inr n ↦ rw (size, n) refl
      ]

  pub insert_at_pos-eq :
      (v : List (Elem T)) (pos : ℕ) (range : AllocRange) (x : T)
      → 0 < range.size
      → AccessSpec v range (empty pos)
      → insert_at_pos v pos range x ≡ ret (inserted v pos (record { range = range; object = x }))
  unfolding insert_at_pos
  insert_at_pos-eq v pos range x p a =
      let e : Elem T = record { range = range; object = x } in
      let f = AccessSpec-FitsAt v pos range p a in
      rw (insert-eq v pos e a.2, first_check v pos e a.2 f, second_check v pos e f) refl

  -- An object at a range that is not empty, inserted in a map in order at the position that
  -- `access_type` gives for it where it finds no overlap, passes both assertions, leaves the map in
  -- order, and is the element at that position.
  pub insert_at_pos_lem :
      (v : List (Elem T)) (pos : ℕ) (range : AllocRange) (x : T)
      → IsSorted v
      → 0 < range.size
      → AccessSpec v range (empty pos)
      → Returns
          (insert_at_pos v pos range x)
          λ w. IsSorted w × (get_elem? w pos ≡ some (record { range = range; object = x }))
  insert_at_pos_lem v pos range x s p a =
      let e : Elem T = record { range = range; object = x } in
      rw (insert_at_pos-eq v pos range x p a) (
        inserted-IsSorted v pos e a.2 p s (AccessSpec-FitsAt v pos range p a),
        get_elem?-inserted v pos e a.2,
      )
