-- ===== src/DedupRangeMap/Slice.antt =====
-- dedup_range_map.rs: the split at the end that the scan has found, and the slice.
use miri.Base.{
  ℕ, ◌-◌, ◌≤◌, ◌<◌, ◌≡◌, refl, sym, ap, ◌∙◌, inl, inr, true, leb, List, [], ◌∷◌, ◌++◌, take,
  Returns, Bool-cases, arith,
}
use miri.DedupRangeMap.{Elem, ScanState, SliceMut, with_end, with_start, slice_mut, slice_to, whole}
use miri.DedupRangeMap.Lookup.{
  lookup, lookup-append, IsContiguous, IsContiguous-append, after_prefix, after_prefix-eq,
  after_prefix-suc, take-append, drop-append, length-append, append_assoc, append_nil,
}
use miri.DedupRangeMap.Split.{at_edge, split_at, split_index_lem, lookup-split_at}
use miri.DedupRangeMap.Loop.{Reached}

module _ {T : Type 0} where
  take_prefix : (p q : List (Elem T)) → take (after_prefix p 0) (p ++ q) ≡ p
  take_prefix p q = take-append p q 0 ∙ append_nil p

  -- the elements after a split at the end of a range
  record Cut (k : ℕ) (e : Elem T) (after : List (Elem T)) (n : ℕ) : Type 0 where
    first : Elem T
    rest : List (Elem T)
    elems_eq : split_at e k after ≡ first ∷ rest
    start_eq : first.range.start ≡ e.range.start
    end_eq : first.range.end ≡ k
    rest-IsContiguous : IsContiguous k rest n

  split_at-Cut :
      (k : ℕ) (e : Elem T) (after : List (Elem T)) (n : ℕ)
      → e.range.start < k
      → k ≤ e.range.end
      → IsContiguous e.range.end after n
      → Cut k e after n
  split_at-Cut k e after n l h c = elim (Bool-cases (at_edge e k)) [
    | inl y ↦
        let q : k ≡ e.range.end = ground arith in
        record {
          first = e;
          rest = after;
          elems_eq = rw (y) refl;
          start_eq = refl;
          end_eq = sym q;
          rest-IsContiguous = rw (q) c;
        }
    | inr d ↦ record {
      first = with_end e k;
      rest = with_start e k ∷ after;
      elems_eq = rw (d) refl;
      start_eq = refl;
      end_eq = refl;
      rest-IsContiguous = (refl, ground arith, c);
    }
  ]

module _ {T K : Type 0} (view : T → K) where
  -- the elements up to the range, those that make up the range, those from its end on; and
  -- the data that looks like that of the map `v` at each offset
  pub record IsSlice (offset end n : ℕ) (v : List (Elem T)) (s : SliceMut T) : Type 0 where
    pub before-IsContiguous : IsContiguous 0 s.before offset
    pub slice-IsContiguous : IsContiguous offset s.slice end
    pub after-IsContiguous : IsContiguous end s.after n
    pub same : (o : ℕ) → lookup view (whole s) o ≡ lookup view v o

  -- the slice, once the scan has found the end
  sliced-IsSlice :
      (a b : List (Elem T)) (l : Elem T) (r : List (Elem T)) (offset end n : ℕ) (v : List (Elem T))
      → IsContiguous 0 a offset
      → IsContiguous offset b l.range.start
      → l.range.start < end
      → l.range.end ≡ end
      → IsContiguous end r n
      → ((o : ℕ) → lookup view (b ++ (l ∷ r)) o ≡ lookup view v o)
      → (let w : List (Elem T) = (a ++ b) ++ (l ∷ r) in
          let last : ℕ = after_prefix (a ++ b) 0 in
          IsSlice offset end n (a ++ v) (slice_mut (after_prefix a 0) last w))
  sliced-IsSlice a b l r offset end n v ca cb s e cr same =
      rw
        (
          after_prefix-suc (a ++ b) 0,
          take-append (a ++ b) (l ∷ r) 1,
          drop-append (a ++ b) (l ∷ r) 1,
          append_assoc a b (l ∷ r),
          append_assoc a b (l ∷ []),
          take_prefix a (b ++ (l ∷ r)),
          drop-append a (b ++ (l ∷ [])) 0,
        )
        (record {
          before-IsContiguous = ca;
          slice-IsContiguous =
              IsContiguous-append offset b l.range.start (l ∷ []) end cb (refl, omega arith, e);
          after-IsContiguous = cr;
          same = λ o.
              rw (append_assoc b (l ∷ []) r) (lookup-append view a (b ++ (l ∷ r)) v o (same o));
        })

  pub slice_to_lem :
      (a : List (Elem T)) (offset end n : ℕ) (v : List (Elem T)) (s : ScanState T)
      → IsContiguous 0 a offset
      → Reached view a offset end n v s
      → Returns (slice_to (after_prefix a 0) end s) (IsSlice offset end n (a ++ v))
  unfolding slice_to
  slice_to_lem a offset end n v s ca r =
      by_cut (split_at-Cut end r.last r.post n r.starts r.ends r.post-IsContiguous)
    where
      ab : List (Elem T)
      ab = a ++ r.blocks

      end_lem : s.end_idx - 1 ≡ after_prefix ab 0
      end_lem = omega (arith, r.end_eq, after_prefix-eq ab 0, length-append a r.blocks)

      some_end : leb 1 s.end_idx ≡ true
      some_end = ground (arith, r.end_eq)

      by_cut :
          Cut end r.last r.post n
          → Returns (slice_to (after_prefix a 0) end s) (IsSlice offset end n (a ++ v))
      by_cut c =
          rw
            (
              some_end,
              end_lem,
              r.elems_eq,
              sym (append_assoc a r.blocks (r.last ∷ r.post)),
              split_index_lem ab r.last r.post end (omega (arith, r.starts)) r.ends,
              c.elems_eq,
            )
            (sliced-IsSlice a r.blocks c.first c.rest offset end n v ca
              (rw (c.start_eq) r.blocks-IsContiguous) (omega (arith, c.start_eq, r.starts)) c.end_eq
              c.rest-IsContiguous (λ o. lookup-blocks c o))
        where
          lookup-blocks :
              (c : Cut end r.last r.post n) (o : ℕ)
              → lookup view (r.blocks ++ (c.first ∷ c.rest)) o ≡ lookup view v o
          lookup-blocks c o =
              lookup-append view r.blocks (c.first ∷ c.rest) (r.last ∷ r.post) o (
                ap (λ w. lookup view w o) (sym c.elems_eq)
                ∙ lookup-split_at view r.last end r.post o (omega (arith, r.starts)) r.ends)
              ∙ r.same o
