-- ===== src/DedupRangeMap/Iter.antt =====
-- dedup_range_map.rs: read-only iteration over a range.
use miri.Base.{
  ℕ, zero, ◌>>◌, assert, suc, ◌>>=◌, ◌+◌, ◌≤◌, ◌<◌, ◌≡◌, refl, sym, ◌∙◌, ◌⊎◌, inl, inr, true, false,
  ◌==◌, ltb, leb, if◌then◌else◌, List, [], ◌∷◌, All, drop, ret, panic, Outcome, Returns, Bool-cases,
  arith,
}
use miri.DedupRangeMap.{Elem, u64_mod, add_u64, size, find_offset, take_while_before, iter}
use miri.DedupRangeMap.Lookup.{lookup, lookup-above, IsContiguous, IsContiguous-le, drop-append}
use miri.DedupRangeMap.Split.{Found, find_offset-Found}

module _ {T : Type 0} where
  size_lem : (a : ℕ) (v : List (Elem T)) (n : ℕ) → IsContiguous a v n → a < n → size v ≡ n
  unfolding size
  size_lem a [] n c l = absurd (omega arith)
  size_lem a (x ∷ []) n c l = c.2
  size_lem a (x ∷ y ∷ v) n c l =
      size_lem x.range.end (y ∷ v) n (c.2)
        (omega (arith, c.2.0, c.2.1, IsContiguous-le y.range.end v n (c.2.2)))

  -- the length of a map without gaps
  pub size-eq : (v : List (Elem T)) (n : ℕ) → IsContiguous 0 v n → size v ≡ n
  unfolding size
  size-eq [] n c = c
  size-eq (x ∷ v) n c =
      size_lem 0 (x ∷ v) n c (omega (arith, c.0, c.1, IsContiguous-le x.range.end v n (c.2)))

  abbrev pub Overlaps : ℕ → ℕ → Elem T → Type 0
  Overlaps offset end e = (e.range.start < end) × (offset < e.range.end)

  take_while-Overlaps :
      (offset end a : ℕ) (v : List (Elem T)) (n : ℕ)
      → IsContiguous a v n
      → offset < a
      → All (Overlaps offset end) (take_while_before end v)
  unfolding take_while_before
  take_while-Overlaps offset end a [] n c l = tt
  take_while-Overlaps offset end a (e ∷ v) n c l = elim (Bool-cases (ltb e.range.start end)) [
    | inl y ↦ rw (y) (
      (ground arith, omega arith),
      take_while-Overlaps offset end e.range.end v n (c.2) (omega arith),
    )
    | inr d ↦ rw (d) tt
  ]

  bind_panic :
      {A : Type 0} (m : Outcome A) (k : A → Outcome (List (Elem T)))
      → ((a : A) → k a ≡ panic)
      → m >>= k ≡ panic
  bind_panic panic k h = refl
  bind_panic (ret a) k h = h a

  -- On a map without gaps, read-only iteration over a range that ends beyond the map panics, also
  -- where the range is empty.
  pub iter-in_bounds :
      (v : List (Elem T)) (n offset len : ℕ)
      → IsContiguous 0 v n
      → n < offset + len
      → iter v offset len ≡ panic
  unfolding iter
  iter-in_bounds v n offset len c l =
      bind_panic (if len == 0 then ret [] else (find_offset v offset >>= λ i. ret (drop i v))) _
        beyond
    where
      too_long : leb (offset + len) (size v) ≡ false
      too_long = ground (arith, size-eq v n c)

      beyond :
          (s : List (Elem T))
          → (add_u64 offset len >>= λ end.
              (assert (leb end (size v)) >> ret (take_while_before end s)))
            ≡ panic
      beyond s = elim (Bool-cases (ltb (offset + len) u64_mod)) [
        | inl y ↦ rw (y, too_long) refl
        | inr d ↦ rw (d) refl
      ]

module _ {T K : Type 0} (view : T → K) where
  lookup-take_while :
      (end a : ℕ) (v : List (Elem T)) (n o : ℕ)
      → IsContiguous a v n
      → o < end
      → a ≤ o
      → lookup view (take_while_before end v) o ≡ lookup view v o
  unfolding take_while_before
  lookup-take_while end a [] n o c l h = refl
  lookup-take_while end a (e ∷ v) n o c l h = elim (Bool-cases (ltb e.range.start end)) [
    | inl y ↦ rw (y) (
        later (λ m. lookup-take_while end e.range.end v n o (c.2) l m)
          (Bool-cases (ltb o e.range.end)))
    | inr d ↦ absurd (ground (arith, c.0))
  ]
    where
      later :
          (e.range.end ≤ o → lookup view (take_while_before end v) o ≡ lookup view v o)
          → ((ltb o e.range.end ≡ true) ⊎ (ltb o e.range.end ≡ false))
          → lookup view (e ∷ take_while_before end v) o ≡ lookup view (e ∷ v) o
      later ih (inl y) = let b : leb e.range.start o ≡ true = ground (arith, c.0) in rw (y, b) refl
      later ih (inr d) = rw (ih (ground arith)) refl

  iter_some_lem :
      (v : List (Elem T)) (n offset len : ℕ)
      → IsContiguous 0 v n
      → 0 < len
      → offset + len ≤ n
      → n < u64_mod
      → Found 0 v n offset
      → Returns (iter v offset len) (λ w.
        All (Overlaps offset (offset + len)) w
        × ((o : ℕ) → offset ≤ o → o < offset + len → lookup view w o ≡ lookup view v o))
  unfolding iter take_while_before
  iter_some_lem v n offset len c p l b f =
      rw
        (
          some_len,
          f.index_eq,
          no_wrap,
          in_bounds,
          f.elems_eq,
          drop-append f.before (f.elem ∷ f.after) 0,
          first_in,
        )
        (
          (
            (ground (arith, f.starts), f.ends),
            take_while-Overlaps offset (offset + len) f.elem.range.end f.after n
                f.after-IsContiguous f.ends,
          ),
          λ o h k.
              rw first_in at (
                lookup-take_while (offset + len) f.elem.range.start (f.elem ∷ f.after) n o
                  (refl, omega (arith, f.starts, f.ends), f.after-IsContiguous) k
                  (omega (arith, f.starts)))
              ∙ sym (
                  lookup-above view 0 f.before f.elem.range.start (f.elem ∷ f.after) o
                    f.before-IsContiguous (omega (arith, f.starts))),
        )
    where
      some_len : (len == 0) ≡ false
      some_len = ground arith

      no_wrap : ltb (offset + len) u64_mod ≡ true
      no_wrap = ground arith

      in_bounds : leb (offset + len) (size v) ≡ true
      in_bounds = ground (arith, size-eq v n c)

      first_in : ltb f.elem.range.start (offset + len) ≡ true
      first_in = ground (arith, f.starts)

  -- Within a map without gaps whose length fits `u64`, read-only iteration returns. The elements
  -- it yields all overlap the range, and each byte of the range is looked up in them as in the map.
  pub iter_lem :
      (v : List (Elem T)) (n offset len : ℕ)
      → IsContiguous 0 v n
      → offset + len ≤ n
      → n < u64_mod
      → Returns (iter v offset len) (λ w.
        All (Overlaps offset (offset + len)) w
        × ((o : ℕ) → offset ≤ o → o < offset + len → lookup view w o ≡ lookup view v o))
  unfolding iter
  iter_lem v n offset zero c l b =
      let no_wrap : ltb (offset + 0) u64_mod ≡ true = ground arith in
      let in_bounds : leb (offset + 0) (size v) ≡ true = ground (arith, size-eq v n c) in
      rw (no_wrap, in_bounds) (tt, λ o h k. absurd (omega arith))
  iter_lem v n offset (suc len) c l b =
      iter_some_lem v n offset (suc len) c (omega arith) l b
        (find_offset-Found 0 v n offset c (omega arith) (omega arith))
