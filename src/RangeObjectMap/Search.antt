-- ===== src/RangeObjectMap/Search.antt =====
-- range_object_map.rs: what `find_offset` finds.
use mathlib.Core.Option.{some-injective}
use miri.Base.{
  ℕ, zero, suc, ◌≤◌, ◌<◌, ◌≡◌, refl, subst, ltb, leb, List, [], ◌∷◌, get_elem?, some, All, All-get,
  arith,
}
use miri.RangeObjectMap.{end, Elem, Found, inside, outside, next, find_offset}

-- the elements are not empty, and in order without overlaps
abbrev pub IsSorted : {T : Type 0} → List (Elem T) → Type 0
IsSorted [] = Unit
IsSorted (e ∷ v) = (0 < e.range.size) × All (λ o. end e.range ≤ o.range.start) v × IsSorted v

-- the number of elements that end at or below the offset, and of those that start there
abbrev pub lower : Found → ℕ
lower (inside pos) = pos
lower (outside pos) = pos

abbrev pub upper : Found → ℕ
upper (inside pos) = suc pos
upper (outside pos) = pos

pub lower-next : (f : Found) → lower (next f) ≡ suc (lower f)
lower-next (inside pos) = refl
lower-next (outside pos) = refl

pub upper-next : (f : Found) → upper (next f) ≡ suc (upper f)
upper-next (inside pos) = refl
upper-next (outside pos) = refl

module _ {T : Type 0} where
  abbrev pub IsAt : Found → ℕ → Elem T → ℕ → Type 0
  IsAt f offset e i =
      (ltb i (lower f) ≡ leb (end e.range) offset) × (ltb i (upper f) ≡ leb e.range.start offset)

  pub find_offset_lem :
      (v : List (Elem T)) (offset i : ℕ) {e : Elem T}
      → IsSorted v
      → get_elem? v i ≡ some e
      → IsAt (find_offset v offset) offset e i
  unfolding find_offset
  find_offset_lem [] offset i s g = cc
  find_offset_lem (x ∷ v) offset zero {e} s g =
      subst (λ y. IsAt (find_offset (x ∷ v) offset) offset y zero) (some-injective x e g)
        (ground (arith, lower-next (find_offset v offset), upper-next (find_offset v offset)))
  find_offset_lem (x ∷ v) offset (suc i) {e} s g =
      let above : end x.range ≤ e.range.start =
        All-get (λ o. end x.range ≤ o.range.start) v i s.1 g in
      let rest = find_offset_lem v offset i s.2 g in
      ground
        (arith, above, rest, lower-next (find_offset v offset), upper-next (find_offset v offset))

  -- the search is monotonic
  pub find_offset_mono :
      (v : List (Elem T)) (a b : ℕ)
      → IsSorted v
      → a ≤ b
      → (lower (find_offset v a) ≤ lower (find_offset v b))
        × (upper (find_offset v a) ≤ upper (find_offset v b))
  unfolding find_offset
  find_offset_mono [] a b s h = (omega arith, omega arith)
  find_offset_mono (x ∷ v) a b s h =
      let rest = find_offset_mono v a b s.2 h in
      ground (
        arith,
        rest,
        lower-next (find_offset v a),
        lower-next (find_offset v b),
        upper-next (find_offset v a),
        upper-next (find_offset v b),
      )
