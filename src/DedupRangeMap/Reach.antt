-- ===== src/DedupRangeMap/Reach.antt =====
-- dedup_range_map.rs: the loop in `iter_mut` ends, and has found the end of the range.
use miri.Base.{
  ℕ, suc, ◌<◌, ◌≡◌, refl, sym, ap, ◌∙◌, ◌⊎◌, inl, inr, List, [], ◌∷◌, ◌++◌, length, arith,
}
use miri.DedupRangeMap.{Elem, ScanState}
use miri.DedupRangeMap.Lookup.{
  lookup-append, IsContiguous-le, IsContiguous-append, after_prefix, after_prefix-eq, append_assoc,
  length-append,
}
use miri.DedupRangeMap.Block.{merged, SameValue, SameValue-snoc, InBlock, Extended, Joined}
use miri.DedupRangeMap.Loop.{Scanned, merged-start, merged-end, lookup-merged}

module _ {T : Type 0} where
  head_or : List (Elem T) → Elem T → Elem T
  head_or [] d = d
  head_or (x ∷ v) d = x

module _ {T K : Type 0} (view : T → K) where
  pub extend-InBlock :
      (p run : List (Elem T)) (e e' : Elem T) (q : List (Elem T)) (t : ScanState T)
      → Extended view p run e (e' ∷ q) t
      → InBlock view p (run ++ (e ∷ [])) e' q t
  unfolding head_or
  extend-InBlock p run e e' q t g = record {
    elems_eq = g.elems_eq ∙ ap (λ w. p ++ w) (sym (append_assoc run (e ∷ []) (e' ∷ q)));
    end_eq = omega (
      arith,
      g.end_eq,
      after_prefix-eq p (suc (length run)),
      after_prefix-eq p (length (run ++ (e ∷ []))),
      length-append run (e ∷ []),
    );
    block = by_block g.block;
  }
    where
      by_block :
          ((t.successful_merge_count ≡ 0)
            ⊎ ((x : Elem T) × (r : List (Elem T)) × ((e' ∷ q) ≡ (x ∷ r))
                × (t.equal_since_idx ≡ after_prefix p 0)
                × (SameValue view e run × (view e.value ≡ view x.value))))
          → (t.successful_merge_count ≡ 0)
            ⊎ ((t.equal_since_idx ≡ after_prefix p 0) × SameValue view e' (run ++ (e ∷ [])))
      by_block (inl z) = inl z
      by_block (inr (x, r, h, s, (a, w))) =
          inr (s, SameValue-snoc view run e e' a (w ∙ ap (λ l. view (head_or l e).value) (sym h)))

  pub merge-InBlock :
      (a b run : List (Elem T)) (e e' : Elem T) (q : List (Elem T)) (t : ScanState T)
      → Joined view (a ++ b) run e (e' ∷ q) t
      → InBlock view (a ++ (b ++ (merged run e ∷ []))) [] e' q t
  merge-InBlock a b run e e' q t g = record {
    elems_eq =
        g.elems_eq
        ∙ sym (append_assoc (a ++ b) (merged run e ∷ []) (e' ∷ q))
        ∙ ap (λ w. w ++ (e' ∷ q)) (append_assoc a b (merged run e ∷ []));
    end_eq = since g.end_eq;
    block = inr (since g.since_eq, tt);
  }
    where
      since :
          {i : ℕ}
          → i ≡ after_prefix (a ++ b) 1
          → i ≡ after_prefix (a ++ (b ++ (merged run e ∷ []))) 0
      since h = omega (
        arith,
        h,
        after_prefix-eq (a ++ b) 1,
        after_prefix-eq (a ++ (b ++ (merged run e ∷ []))) 0,
        length-append a b,
        length-append a (b ++ (merged run e ∷ [])),
        length-append b (merged run e ∷ []),
      )

  module _ (offset end n : ℕ) (v : List (Elem T)) where
    pub extend-Scanned :
        (b run : List (Elem T)) (e e' : Elem T) (q : List (Elem T))
        → Scanned view offset end n v b run e (e' ∷ q)
        → e.range.end < end
        → Scanned view offset end n v b (run ++ (e ∷ [])) e' q
    extend-Scanned b run e e' q c h =
        let f : e'.range.start ≡ e.range.end = c.post-IsContiguous.0 in
        record {
          middle = c.middle;
          b-IsContiguous = c.b-IsContiguous;
          run-IsContiguous =
              IsContiguous-append c.middle run e.range.start (e ∷ []) e'.range.start
                c.run-IsContiguous (refl, c.nonempty, sym f);
          nonempty = c.post-IsContiguous.1;
          post-IsContiguous = c.post-IsContiguous.2;
          starts = omega (arith, f);
          same = λ o. rw (append_assoc run (e ∷ []) (e' ∷ q)) (c.same o);
        }

    pub merge-Scanned :
        (b run : List (Elem T)) (e e' : Elem T) (q : List (Elem T))
        → Scanned view offset end n v b run e (e' ∷ q)
        → e.range.end < end
        → SameValue view e run
        → Scanned view offset end n v (b ++ (merged run e ∷ [])) [] e' q
    merge-Scanned b run e e' q c h a =
        let f : e'.range.start ≡ e.range.end = c.post-IsContiguous.0 in
        let s : (merged run e).range.start ≡ c.middle =
          merged-start c.middle run e c.run-IsContiguous in
        let l : (merged run e).range.end ≡ e.range.end = merged-end run e in
        record {
          middle = e'.range.start;
          b-IsContiguous =
              IsContiguous-append offset b c.middle (merged run e ∷ []) e'.range.start
                c.b-IsContiguous
                (
                  s,
                  omega (
                    arith,
                    s,
                    l,
                    c.nonempty,
                    IsContiguous-le c.middle run e.range.start c.run-IsContiguous,
                  ),
                  l ∙ sym f,
                );
          run-IsContiguous = refl;
          nonempty = c.post-IsContiguous.1;
          post-IsContiguous = c.post-IsContiguous.2;
          starts = omega (arith, f);
          same = λ o. rw (append_assoc b (merged run e ∷ []) (e' ∷ q)) (
              lookup-append view b (merged run e ∷ e' ∷ q) (run ++ (e ∷ e' ∷ q)) o
                (lookup-merged view c.middle run e (e' ∷ q) o c.run-IsContiguous c.nonempty a)
              ∙ c.same o);
        }
