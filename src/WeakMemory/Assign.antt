-- ===== src/WeakMemory/Assign.antt =====
-- weak_memory.rs: a change of one object of a range object map, through `&mut buffers[pos]`.
use miri.Base.{
  ℕ, ◌≤◌, ◌≡◌, refl, ap, ◌∙◌, true, some, List, [], ◌∷◌, get_elem?, zero, suc, All, Bool-cases, inl,
  inr,
}
use mathlib.Core.Option.{some-injective}
use miri.RangeObjectMap.{AllocRange, end, Elem}
use miri.RangeObjectMap.Search.{IsSorted}
use miri.RangeObjectMap.Access.{overlaps}
use miri.RangeObjectMap.Remove.{kept}
use miri.WeakMemory.Atomics.{set_object}

module _ {T : Type 0} where
  All-set_object :
      (n pos : ℕ) (x : T) (v : List (Elem T))
      → All (λ o. n ≤ o.range.start) v
      → All (λ o. n ≤ o.range.start) (set_object pos x v)
  All-set_object n pos x [] a = tt
  All-set_object n zero x (e ∷ v) a = a
  All-set_object n (suc pos) x (e ∷ v) a = (a.0, All-set_object n pos x v a.1)

  pub set_object-IsSorted :
      (pos : ℕ) (x : T) (v : List (Elem T)) → IsSorted v → IsSorted (set_object pos x v)
  set_object-IsSorted pos x [] s = tt
  set_object-IsSorted zero x (e ∷ v) s = s
  set_object-IsSorted (suc pos) x (e ∷ v) s =
      (s.0, All-set_object (end e.range) pos x v s.1, set_object-IsSorted pos x v s.2)

  pub get-set_object :
      (pos : ℕ) (x : T) (range : AllocRange) (v : List (Elem T)) {e : Elem T}
      → get_elem? v pos ≡ some e
      → e.range ≡ range
      → get_elem? (set_object pos x v) pos ≡ some (record { range = range; object = x })
  get-set_object pos x range [] g p = cc
  get-set_object zero x range (e ∷ v) {e = d} g p =
      ap (λ r. some (record { range = r; object = x }))
        (ap (λ o. o.range) (some-injective e d g) ∙ p)
  get-set_object (suc pos) x range (e ∷ v) g p = get-set_object pos x range v g p

  -- a change of an object that overlaps is no change of what is kept
  pub kept-set_object :
      (pos : ℕ) (x : T) (range : AllocRange) (v : List (Elem T)) {e : Elem T}
      → get_elem? v pos ≡ some e
      → overlaps e range ≡ true
      → kept (set_object pos x v) range ≡ kept v range
  kept-set_object pos x range [] g y = cc
  kept-set_object zero x range (e ∷ v) {e = d} g y =
      let z : overlaps e range ≡ true = ap (λ o. overlaps o range) (some-injective e d g) ∙ y in
      rw (z) refl
  kept-set_object (suc pos) x range (e ∷ v) g y = elim (Bool-cases (overlaps e range)) [
    | inl z ↦ rw (z) (kept-set_object pos x range v g y)
    | inr d ↦ rw (d) (ap (λ w. e ∷ w) (kept-set_object pos x range v g y))
  ]
