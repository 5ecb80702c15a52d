-- ===== src/DedupRangeMap/Update.antt =====
-- dedup_range_map.rs: the map after a caller of `iter_mut` has written to what it yields.
use miri.Base.{
  ℕ, zero, suc, ◌+◌, ◌≤◌, ◌<◌, ◌≡◌, refl, sym, ap, ◌∙◌, ◌⊎◌, inl, inr, Bool, true, false, ◌&&◌, ltb,
  leb, if◌then◌else◌, List, [], ◌∷◌, ◌++◌, Option, none, some, ret, Returns, ◌>>=◌, bind_Returns,
  Bool-cases, arith,
}
use miri.DedupRangeMap.{Elem, SliceMut, u64_mod, iter_mut}
use miri.DedupRangeMap.Lookup.{
  lookup, lookup-above, lookup-within, IsContiguous, IsContiguous-append, append_nil,
}
use miri.DedupRangeMap.IterMut.{iter_mut_lem}
use miri.DedupRangeMap.Slice.{IsSlice}

-- `f` of the data at an offset, if there is any
abbrev pub map_data {ℓ} : {T : Type ℓ} → (T → T) → Option T → Option T
map_data f none = none
map_data f (some t) = some (f t)

module _ {T : Type 0} where
  -- the caller's `for (_, t) in iter_mut(..) { *t = f(t) }`
  abbrev pub write_all : (T → T) → List (Elem T) → List (Elem T)
  write_all f [] = []
  write_all f (e ∷ v) = record { range = e.range; value = f e.value } ∷ write_all f v

  abbrev pub write_slice : (T → T) → SliceMut T → List (Elem T)
  write_slice f s = s.before ++ (write_all f s.slice ++ s.after)

  write_all-IsContiguous :
      (f : T → T) (a : ℕ) (v : List (Elem T)) (b : ℕ)
      → IsContiguous a v b
      → IsContiguous a (write_all f v) b
  write_all-IsContiguous f a [] b c = c
  write_all-IsContiguous f a (e ∷ v) b c =
      (c.0, c.1, write_all-IsContiguous f e.range.end v b (c.2))

module _ {T K : Type 0} (view : T → K) where
  -- in three parts, an offset is looked up in the one that covers it
  pub lookup-parts :
      (p q r : List (Elem T)) (a b n o : ℕ)
      → IsContiguous 0 p a
      → IsContiguous a q b
      → IsContiguous b r n
      → lookup view (p ++ (q ++ r)) o ≡ (
          if ltb o a
          then lookup view p o
          else (if ltb o b then lookup view q o else lookup view r o))
  lookup-parts p q r a b n o cp cq cr = elim (Bool-cases (ltb o a)) [
    | inl y ↦ rw (y) (
        lookup-within view 0 p a (q ++ r) n o cp (IsContiguous-append a q b r n cq cr)
          (ground arith))
    | inr d ↦
        rw (d, lookup-above view 0 p a (q ++ r) o cp (ground arith)) (inner (Bool-cases (ltb o b)))
  ]
    where
      inner :
          ((ltb o b ≡ true) ⊎ (ltb o b ≡ false))
          → lookup view (q ++ r) o ≡ (if ltb o b then lookup view q o else lookup view r o)
      inner (inl y) = rw (y) (lookup-within view a q b r n o cq cr (ground arith))
      inner (inr d) = rw (d) (lookup-above view a q b r o cq (ground arith))

module _ {T K : Type 0} (view : T → K) (f : T → T) (g : K → K)
    (fits : (t : T) → view (f t) ≡ g (view t)) where
  lookup-write_all :
      (v : List (Elem T)) (o : ℕ) → lookup view (write_all f v) o ≡ map_data g (lookup view v o)
  lookup-write_all [] o = refl
  lookup-write_all (e ∷ v) o = elim (Bool-cases (leb e.range.start o && ltb o e.range.end)) [
    | inl y ↦ rw (y) (ap some (fits e.value))
    | inr d ↦ rw (d) (lookup-write_all v o)
  ]

  write_slice_lem :
      (v : List (Elem T)) (offset end n : ℕ) (s : SliceMut T) (o : ℕ)
      → IsSlice view offset end n v s
      → lookup view (write_slice f s) o
        ≡ (if leb offset o && ltb o end then map_data g (lookup view v o) else lookup view v o)
  write_slice_lem v offset end n s o i =
      lookup-parts view s.before (write_all f s.slice) s.after offset end n o i.before-IsContiguous
        (write_all-IsContiguous f offset s.slice end i.slice-IsContiguous) i.after-IsContiguous
      ∙ by_part (Bool-cases (ltb o offset)) (Bool-cases (ltb o end))
    where
      old : lookup view v o ≡ (
          if ltb o offset
          then lookup view s.before o
          else (if ltb o end then lookup view s.slice o else lookup view s.after o))
      old =
          sym (i.same o)
          ∙ lookup-parts view s.before s.slice s.after offset end n o i.before-IsContiguous
              i.slice-IsContiguous i.after-IsContiguous

      by_part :
          ((ltb o offset ≡ true) ⊎ (ltb o offset ≡ false))
          → ((ltb o end ≡ true) ⊎ (ltb o end ≡ false))
          → (if ltb o offset
              then lookup view s.before o
              else (if ltb o end
                  then lookup view (write_all f s.slice) o
                  else lookup view s.after o))
            ≡ (if leb offset o && ltb o end then map_data g (lookup view v o) else lookup view v o)
      by_part (inl y) e = let b : leb offset o ≡ false = ground arith in rw (old, y, b) refl
      by_part (inr d) (inl y) =
          let b : leb offset o ≡ true = ground arith in
          rw (old, d, y, b) (lookup-write_all s.slice o)
      by_part (inr d) (inr e) = let b : leb offset o ≡ true = ground arith in rw (old, d, e, b) refl

module _ {T K : Type 0} (view : T → K) (eq : T → T → Bool)
    (sound : (x y : T) → eq x y ≡ true → view x ≡ view y) where
  empty_write :
      (f : T → T) (v : List (Elem T)) (offset : ℕ)
      → iter_mut eq v offset 0 >>= (λ s. ret (write_slice f s)) ≡ ret v
  unfolding iter_mut
  empty_write f v offset = rw (append_nil v) refl

  -- Let the test for equal data say that two data look the same to `view`, and let `f` of a data
  -- look like `g` of its look. On a map without gaps, whose length fits `u64`, an access of bytes
  -- that lie in it returns, also where it is empty. Once the caller has put `f` of the data in place
  -- of that of each element yielded, the map is without gaps and of the same length, and shows `g` of
  -- the old look at exactly the bytes of the range and the old look at all other offsets.
  pub iter_mut-write :
      (f : T → T) (g : K → K) (v : List (Elem T)) (n offset len : ℕ)
      → ((t : T) → view (f t) ≡ g (view t))
      → IsContiguous 0 v n
      → offset + len ≤ n
      → n < u64_mod
      → Returns (iter_mut eq v offset len >>= λ s. ret (write_slice f s)) (λ w.
        IsContiguous 0 w n
        × ((o : ℕ)
            → lookup view w o ≡ (
                if leb offset o && ltb o (offset + len)
                then map_data g (lookup view v o)
                else lookup view v o)))
  iter_mut-write f g v n offset zero fits c l b = rw (empty_write f v offset) (c, λ o. ground arith)
  iter_mut-write f g v n offset (suc len) fits c l b =
      bind_Returns (IsSlice view offset (offset + suc len) n v) _ (iter_mut eq v offset (suc len)) _
        (iter_mut_lem view eq sound v n offset (suc len) c (omega arith) l b)
        (λ s i. (
          IsContiguous-append 0 s.before offset (write_all f s.slice ++ s.after) n
              i.before-IsContiguous
              (IsContiguous-append offset (write_all f s.slice) (offset + suc len) s.after n
                (write_all-IsContiguous f offset s.slice (offset + suc len) i.slice-IsContiguous)
                i.after-IsContiguous),
          λ o. write_slice_lem view f g fits v offset (offset + suc len) n s o i,
        ))
