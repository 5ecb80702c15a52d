-- ===== src/DedupRangeMap/IterMut.antt =====
-- dedup_range_map.rs: what `iter_mut` yields, and the map around it.
use miri.Base.{
  ℕ, suc, ◌+◌, ◌≤◌, ◌<◌, ◌≡◌, refl, sym, ◌∙◌, ◌⊎◌, inl, inr, Bool, true, false, ltb, ◌==◌, List, [],
  ◌∷◌, ◌++◌, length, Returns, bind_Returns, weaken_Returns, Bool-cases, arith,
}
use miri.DedupRangeMap.{
  Elem, u64_mod, with_end, with_start, start_scan, slice_to, scan_loop, iter_mut_from, iter_mut,
}
use miri.DedupRangeMap.Lookup.{
  lookup, lookup-append, IsContiguous, IsContiguous-append, after_prefix, after_prefix-eq,
  length-append, append_assoc, append_nil,
}
use miri.DedupRangeMap.Split.{Found, find_offset-Found, at_edge, split_index_lem}
use miri.DedupRangeMap.Block.{InBlock}
use miri.DedupRangeMap.Loop.{Reached, Scanned}
use miri.DedupRangeMap.ScanLoop.{scan_loop_lem}
use miri.DedupRangeMap.Slice.{IsSlice, slice_to_lem}

module _ {T K : Type 0} (view : T → K) (eq : T → T → Bool)
    (sound : (x y : T) → eq x y ≡ true → view x ≡ view y) where
  iter_mut_from_lem :
      (a : List (Elem T)) (e : Elem T) (post : List (Elem T)) (end n : ℕ)
      → IsContiguous 0 a e.range.start
      → e.range.start < e.range.end
      → IsContiguous e.range.end post n
      → e.range.start < end
      → end ≤ n
      → Returns
          (iter_mut_from eq (a ++ (e ∷ post)) (after_prefix a 0) end)
          (IsSlice view e.range.start end n (a ++ (e ∷ post)))
  unfolding iter_mut_from
  iter_mut_from_lem a e post end n ca ne c s l =
      bind_Returns (Reached view a e.range.start end n (e ∷ post))
        (IsSlice view e.range.start end n (a ++ (e ∷ post)))
        (scan_loop (length (a ++ (e ∷ post))) eq end
          (start_scan (a ++ (e ∷ post)) (after_prefix a 0)))
        (λ t. slice_to (after_prefix a 0) end t)
        (scan_loop_lem view eq sound a e.range.start end n (e ∷ post) (length (a ++ (e ∷ post))) []
          [] e post (start_scan (a ++ (e ∷ post)) (after_prefix a 0)) start scanned
          (omega (arith, length-append a (e ∷ post))) l)
        (λ t r. slice_to_lem view a e.range.start end n (e ∷ post) t ca r)
    where
      start : InBlock view (a ++ []) [] e post (start_scan (a ++ (e ∷ post)) (after_prefix a 0))
      start = rw (append_nil a) (record { elems_eq = refl; end_eq = refl; block = inr (refl, tt) })

      scanned : Scanned view e.range.start end n (e ∷ post) [] [] e post
      scanned = record {
        middle = e.range.start;
        b-IsContiguous = refl;
        run-IsContiguous = refl;
        nonempty = ne;
        post-IsContiguous = c;
        starts = s;
        same = λ o. refl;
      }

  -- the same, behind a split within an element
  split_from_lem :
      (a : List (Elem T)) (e : Elem T) (post : List (Elem T)) (offset end n : ℕ)
      → IsContiguous 0 a e.range.start
      → e.range.start < offset
      → offset < e.range.end
      → IsContiguous e.range.end post n
      → offset < end
      → end ≤ n
      → Returns
          (iter_mut_from eq
            (a ++ (with_end e offset ∷ with_start e offset ∷ post))
            (suc (after_prefix a 0))
            end)
          (IsSlice view offset end n (a ++ (e ∷ post)))
  split_from_lem a e post offset end n ca h k c s l =
      rw (sym (append_assoc a (with_end e offset ∷ []) (with_start e offset ∷ post)), index_eq)
        (weaken_Returns
          (IsSlice view offset end n
            ((a ++ (with_end e offset ∷ [])) ++ (with_start e offset ∷ post)))
          (IsSlice view offset end n (a ++ (e ∷ post))) _
          (iter_mut_from_lem (a ++ (with_end e offset ∷ [])) (with_start e offset) post end n
            (IsContiguous-append 0 a e.range.start (with_end e offset ∷ []) offset ca
              (refl, h, refl))
            k c s l)
          (λ t r. record {
            before-IsContiguous = r.before-IsContiguous;
            slice-IsContiguous = r.slice-IsContiguous;
            after-IsContiguous = r.after-IsContiguous;
            same = λ o. r.same o ∙ unsplit o;
          }))
    where
      index_eq : suc (after_prefix a 0) ≡ after_prefix (a ++ (with_end e offset ∷ [])) 0
      index_eq = omega (
        arith,
        after_prefix-eq a 0,
        after_prefix-eq (a ++ (with_end e offset ∷ [])) 0,
        length-append a (with_end e offset ∷ []),
      )

      unsplit :
          (o : ℕ)
          → lookup view ((a ++ (with_end e offset ∷ [])) ++ (with_start e offset ∷ post)) o
            ≡ lookup view (a ++ (e ∷ post)) o
      unsplit o = rw (append_assoc a (with_end e offset ∷ []) (with_start e offset ∷ post)) (
          lookup-append view a (with_end e offset ∷ with_start e offset ∷ post) (e ∷ post) o
            (ground arith))

  -- Let the test for equal data say that two data look the same to `view`. On a map without gaps,
  -- whose length fits `u64`, an access of one byte or more that lie in it returns: its splits and
  -- merges do not panic and its loop ends. It yields elements that make up exactly the range, those
  -- before it and after it make up the rest, and the data looks as before at every offset.
  pub iter_mut_lem :
      (v : List (Elem T)) (n offset len : ℕ)
      → IsContiguous 0 v n
      → 0 < len
      → offset + len ≤ n
      → n < u64_mod
      → Returns (iter_mut eq v offset len) (IsSlice view offset (offset + len) n v)
  unfolding iter_mut
  iter_mut_lem v n offset len c p l b =
      by_found (find_offset-Found 0 v n offset c (omega arith) (omega arith))
    where
      some_len : (len == 0) ≡ false
      some_len = ground arith

      no_wrap : ltb (offset + len) u64_mod ≡ true
      no_wrap = ground arith

      by_split :
          (f : Found 0 v n offset)
          → (at_edge f.elem offset ≡ true) ⊎ (at_edge f.elem offset ≡ false)
          → Returns (iter_mut eq v offset len) (IsSlice view offset (offset + len) n v)
      by_split f (inl y) =
          let q : offset ≡ f.elem.range.start = ground (arith, f.ends) in
          rw
            (
              some_len,
              f.index_eq,
              f.elems_eq,
              split_index_lem f.before f.elem f.after offset f.starts (omega (arith, f.ends)),
              y,
              no_wrap,
            )
            (rw (q) (
              iter_mut_from_lem f.before f.elem f.after (f.elem.range.start + len) n
                f.before-IsContiguous (omega (arith, f.ends, f.starts)) f.after-IsContiguous
                (omega arith) (omega arith)))
      by_split f (inr d) =
          rw
            (
              some_len,
              f.index_eq,
              f.elems_eq,
              split_index_lem f.before f.elem f.after offset f.starts (omega (arith, f.ends)),
              d,
              no_wrap,
            )
            (split_from_lem f.before f.elem f.after offset (offset + len) n f.before-IsContiguous
              (ground (arith, f.starts)) f.ends f.after-IsContiguous (omega arith) l)

      by_found :
          Found 0 v n offset
          → Returns (iter_mut eq v offset len) (IsSlice view offset (offset + len) n v)
      by_found f = by_split f (Bool-cases (at_edge f.elem offset))
