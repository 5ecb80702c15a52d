-- ===== src/RangeObjectMap/Access.antt =====
-- range_object_map.rs: the classification of an access by `access_type`.
use miri.Base.{
  ℕ, ◌-◌, ◌≤◌, ◌<◌, ◌≡◌, refl, Bool, true, false, ◌&&◌, ◌==◌, ltb, leb, is_some, List, [], ◌∷◌,
  get_elem?, length, Option, none, some, ret, Returns, arith, Bool-cases, inl, inr, lt→ltb,
}
use miri.RangeObjectMap.{
  AllocRange, u64_mod, end, last_offset, Elem, Found, inside, outside, next, AccessType,
  perfectly_overlapping, empty, imperfectly_overlapping, from_outside, from_inside, find_offset,
  access_inside, access_at, access_type,
}
use miri.RangeObjectMap.Search.{
  IsSorted, lower, upper, lower-next, upper-next, IsAt, find_offset_lem, find_offset_mono,
}

-- the element and the range share a byte
abbrev pub overlaps : {T : Type 0} → Elem T → AllocRange → Bool
overlaps e range = ltb e.range.start (end range) && ltb range.start (end e.range)

-- a position that is found holds an element
abbrev pub hits : {T : Type 0} → List (Elem T) → Found → Bool
hits v (inside pos) = is_some (get_elem? v pos)
hits v (outside pos) = true

hits-next :
    {T : Type 0} (x : Elem T) (v : List (Elem T)) (f : Found) → hits (x ∷ v) (next f) ≡ hits v f
hits-next x v (inside pos) = refl
hits-next x v (outside pos) = refl

last_offset-eq :
    (range : AllocRange)
    → 0 < end range
    → end range < u64_mod
    → last_offset range ≡ ret (end range - 1)
last_offset-eq range n b =
    let nonzero : end range == 0 ≡ false = ground arith in
    rw (lt→ltb (end range) u64_mod b, nonzero) refl

module _ {T : Type 0} where
  find_offset-hits : (v : List (Elem T)) (offset : ℕ) → hits v (find_offset v offset) ≡ true
  unfolding find_offset
  find_offset-hits [] offset = refl
  find_offset-hits (x ∷ v) offset = elim (Bool-cases (ltb offset x.range.start)) [
    | inl l ↦ rw (l) refl
    | inr g ↦ elim (Bool-cases (leb (end x.range) offset)) [
      | inl e ↦ rw (g, e, hits-next x v (find_offset v offset)) (find_offset-hits v offset)
      | inr n ↦ rw (g, n) refl
    ]
  ]

  lower_le : (v : List (Elem T)) (offset : ℕ) → lower (find_offset v offset) ≤ length v
  unfolding find_offset
  lower_le [] offset = omega arith
  lower_le (x ∷ v) offset = ground (arith, lower_le v offset, lower-next (find_offset v offset))

  upper_le : (v : List (Elem T)) (offset : ℕ) → upper (find_offset v offset) ≤ length v
  unfolding find_offset
  upper_le [] offset = omega arith
  upper_le (x ∷ v) offset = ground (arith, upper_le v offset, upper-next (find_offset v offset))

  -- At the elements from `first` up to but not including `last`, and at no others, there is an
  -- overlap.
  abbrev pub Spans : List (Elem T) → AllocRange → ℕ → ℕ → Type 0
  Spans v range first last =
      (i : ℕ) (e : Elem T) → get_elem? v i ≡ some e → overlaps e range ≡ (leb first i && ltb i last)

  -- the elements before the position are those that end at or below the range
  abbrev pub Splits : List (Elem T) → AllocRange → ℕ → Type 0
  Splits v range pos =
      (i : ℕ) (e : Elem T) → get_elem? v i ≡ some e → ltb i pos ≡ leb (end e.range) range.start

  abbrev pub AccessSpec : List (Elem T) → AllocRange → AccessType → Type 0
  AccessSpec v range (perfectly_overlapping pos) =
      (e : Elem T) × (get_elem? v pos ≡ some e)
      × (e.range.start ≡ range.start)
      × (e.range.size ≡ range.size)
  AccessSpec v range (empty pos) = Spans v range pos pos × Splits v range pos × (pos ≤ length v)
  AccessSpec v range (imperfectly_overlapping first last) =
      (first < last) × Spans v range first last × (last ≤ length v)

  -- what the searches for an offset establish
  abbrev Located : List (Elem T) → ℕ → Found → Type 0
  Located v offset f = (i : ℕ) (e : Elem T) → get_elem? v i ≡ some e → IsAt f offset e i

  located-Spans :
      (v : List (Elem T)) (range : AllocRange) (f g : Found)
      → 0 < end range
      → Located v range.start f
      → Located v (end range - 1) g
      → Spans v range (lower f) (upper g)
  located-Spans v range f g n k l i e h = ground (arith, k i e h, l i e h)

  outside_lem :
      (v : List (Elem T)) (range : AllocRange) (pos : ℕ) (g : Found)
      → 0 < end range
      → Located v range.start (outside pos)
      → Located v (end range - 1) g
      → pos ≤ lower g
      → pos ≤ length v
      → upper g ≤ length v
      → AccessSpec v range (from_outside pos g)
  unfolding from_outside
  outside_lem v range pos (inside last) n k l h m b = (
    omega arith,
    λ i e g. ground (arith, located-Spans v range (outside pos) (inside last) n k l i e g),
    omega (arith, b),
  )
  outside_lem v range pos (outside last) n k l h m b = elim (Bool-cases (pos == last)) [
    | inl e ↦ rw (e) (
      λ i x g. ground (arith, located-Spans v range (outside pos) (outside last) n k l i x g),
      λ i x g. (k i x g).0,
      m,
    )
    | inr d ↦ rw (d) (ground arith, located-Spans v range (outside pos) (outside last) n k l, b)
  ]

  inside_lem :
      (v : List (Elem T)) (range : AllocRange) (pos : ℕ) (g : Found)
      → 0 < end range
      → Located v range.start (inside pos)
      → Located v (end range - 1) g
      → pos < upper g
      → upper g ≤ length v
      → AccessSpec v range (from_inside pos g)
  unfolding from_inside
  inside_lem v range pos (inside last) n k l h b = (
    omega arith,
    λ i e g. ground (arith, located-Spans v range (inside pos) (inside last) n k l i e g),
    omega (arith, b),
  )
  inside_lem v range pos (outside last) n k l h b =
      (h, located-Spans v range (inside pos) (outside last) n k l, b)

  -- In a map in order, an access of a range that is not empty and ends within 64 bits is
  -- classified without a panic. A perfect overlap is with an element of that range. Otherwise the
  -- positions given are exactly those of the elements that share a byte with the range, and there is
  -- one; or no element does, and the position, at most the length of the map, is behind the elements
  -- that end at or below the range and no others.
  pub access_type_lem :
      (v : List (Elem T)) (range : AllocRange)
      → IsSorted v
      → 0 < range.size
      → end range < u64_mod
      → Returns (access_type v range) (AccessSpec v range)
  unfolding access_type access_at access_inside
  access_type_lem v range s p b =
      by_start (find_offset v range.start) (find_offset-hits v range.start)
        (λ i e g. find_offset_lem v range.start i s g) (lower_le v range.start) mono.0 mono.1
    where
      n : 0 < end range
      n = omega arith

      mono :
          (lower (find_offset v range.start) ≤ lower (find_offset v (end range - 1)))
          × (upper (find_offset v range.start) ≤ upper (find_offset v (end range - 1)))
      mono = find_offset_mono v range.start (end range - 1) s (omega arith)

      found_last : Located v (end range - 1) (find_offset v (end range - 1))
      found_last = λ i e g. find_offset_lem v (end range - 1) i s g

      by_elem :
          (pos : ℕ) (o : Option (Elem T))
          → get_elem? v pos ≡ o
          → is_some o ≡ true
          → Located v range.start (inside pos)
          → pos < upper (find_offset v (end range - 1))
          → Returns (access_inside v range pos o) (AccessSpec v range)
      by_elem pos none g h k u = cc
      by_elem pos (some e) g h k u =
          let same = (e.range.start == range.start) && (e.range.size == range.size) in
          elim (Bool-cases same) [
            | inl y ↦ rw (y) (e, g, ground arith, ground arith)
            | inr d ↦
                rw (d, last_offset-eq range n b)
                  (inside_lem v range pos (find_offset v (end range - 1)) n k found_last u
                    (upper_le v (end range - 1)))
          ]

      by_start :
          (f : Found)
          → hits v f ≡ true
          → Located v range.start f
          → lower f ≤ length v
          → lower f ≤ lower (find_offset v (end range - 1))
          → upper f ≤ upper (find_offset v (end range - 1))
          → Returns (access_at v range f) (AccessSpec v range)
      by_start (inside pos) h k l m u = by_elem pos (get_elem? v pos) refl h k (omega arith)
      by_start (outside pos) h k l m u = rw (last_offset-eq range n b) (
          outside_lem v range pos (find_offset v (end range - 1)) n k found_last m l
            (upper_le v (end range - 1)))
