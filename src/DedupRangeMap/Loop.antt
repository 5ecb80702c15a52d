-- ===== src/DedupRangeMap/Loop.antt =====
-- dedup_range_map.rs: the scan in `iter_mut` for the end of a range, to its end.
use miri.Base.{
  ℕ, suc, ◌+◌, ◌≤◌, ◌<◌, ◌≡◌, refl, sym, ap, ◌∙◌, ◌&&◌, ltb, leb, if◌then◌else◌, List, [], ◌∷◌,
  ◌++◌, length, some, arith,
}
use miri.DedupRangeMap.{Elem, ScanState}
use miri.DedupRangeMap.Lookup.{
  lookup, lookup-append, IsContiguous, IsContiguous-le, IsContiguous-append, after_prefix-eq,
  append_assoc, length-append,
}
use miri.DedupRangeMap.Block.{merged, SameValue, Extended, Joined}

module _ {T : Type 0} where
  pub merged-start :
      (x : ℕ) (run : List (Elem T)) (e : Elem T)
      → IsContiguous x run e.range.start
      → (merged run e).range.start ≡ x
  merged-start x [] e c = sym c
  merged-start x (r ∷ run) e c = c.0

  pub merged-end : (run : List (Elem T)) (e : Elem T) → (merged run e).range.end ≡ e.range.end
  merged-end [] e = refl
  merged-end (r ∷ run) e = refl

module _ {T K : Type 0} (view : T → K) where
  -- neighbours with the same data read like one element
  lookup-run :
      (x : ℕ) (run : List (Elem T)) (e : Elem T) (post : List (Elem T)) (o : ℕ)
      → IsContiguous x run e.range.start
      → e.range.start < e.range.end
      → SameValue view e run
      → lookup view (run ++ (e ∷ post)) o
        ≡ (if leb x o && ltb o e.range.end then some (view e.value) else lookup view post o)
  lookup-run x [] e post o c n a = ground (arith, c)
  lookup-run x (r ∷ run) e post o c n a =
      let v : some (view r.value) ≡ some (view e.value) = ap some a.0 in
      ground (
        arith,
        v,
        IsContiguous-le r.range.end run e.range.start (c.2),
        lookup-run r.range.end run e post o (c.2) n (a.1),
      )

  pub lookup-merged :
      (x : ℕ) (run : List (Elem T)) (e : Elem T) (post : List (Elem T)) (o : ℕ)
      → IsContiguous x run e.range.start
      → e.range.start < e.range.end
      → SameValue view e run
      → lookup view (merged run e ∷ post) o ≡ lookup view (run ++ (e ∷ post)) o
  lookup-merged x [] e post o c n a = refl
  lookup-merged x (r ∷ run) e post o c n a =
      let v : some (view r.value) ≡ some (view e.value) = ap some a.0 in
      ground (arith, v, lookup-run x (r ∷ run) e post o c n a)

  -- The scan has found the end: `blocks` and `last` cover the range, `last` up to or beyond its end,
  -- and no data has changed.
  pub record Reached (a : List (Elem T)) (offset end n : ℕ) (v : List (Elem T)) (s : ScanState T)
      : Type 0 where
    pub blocks : List (Elem T)
    pub last : Elem T
    pub post : List (Elem T)
    pub elems_eq : s.elems ≡ a ++ (blocks ++ (last ∷ post))
    pub end_eq : s.end_idx ≡ suc (length a + length blocks)
    pub blocks-IsContiguous : IsContiguous offset blocks last.range.start
    pub post-IsContiguous : IsContiguous last.range.end post n
    pub starts : last.range.start < end
    pub ends : end ≤ last.range.end
    pub same : (o : ℕ) → lookup view (blocks ++ (last ∷ post)) o ≡ lookup view v o

  -- what holds of the elements at the head of the loop
  pub record Scanned (offset end n : ℕ) (v b run : List (Elem T)) (e : Elem T)
      (post : List (Elem T)) : Type 0 where
    pub middle : ℕ
    pub b-IsContiguous : IsContiguous offset b middle
    pub run-IsContiguous : IsContiguous middle run e.range.start
    pub nonempty : e.range.start < e.range.end
    pub post-IsContiguous : IsContiguous e.range.end post n
    pub starts : e.range.start < end
    pub same : (o : ℕ) → lookup view (b ++ (run ++ (e ∷ post))) o ≡ lookup view v o

  module _ (a : List (Elem T)) (offset end n : ℕ) (v : List (Elem T)) where
    pub extend-Reached :
        (b run : List (Elem T)) (e : Elem T) (post : List (Elem T)) (t : ScanState T)
        → Scanned offset end n v b run e post
        → end ≤ e.range.end
        → Extended view (a ++ b) run e post t
        → Reached a offset end n v t
    extend-Reached b run e post t c d g = record {
      blocks = b ++ run;
      last = e;
      post = post;
      elems_eq =
          g.elems_eq
          ∙ append_assoc a b (run ++ (e ∷ post))
          ∙ ap (λ w. a ++ w) (sym (append_assoc b run (e ∷ post)));
      end_eq = omega (
        arith,
        g.end_eq,
        after_prefix-eq (a ++ b) (suc (length run)),
        length-append a b,
        length-append b run,
      );
      blocks-IsContiguous =
          IsContiguous-append offset b c.middle run e.range.start c.b-IsContiguous
            c.run-IsContiguous;
      post-IsContiguous = c.post-IsContiguous;
      starts = c.starts;
      ends = d;
      same = λ o. rw (append_assoc b run (e ∷ post)) (c.same o);
    }

    pub merge-Reached :
        (b run : List (Elem T)) (e : Elem T) (post : List (Elem T)) (t : ScanState T)
        → Scanned offset end n v b run e post
        → end ≤ e.range.end
        → Joined view (a ++ b) run e post t
        → Reached a offset end n v t
    merge-Reached b run e post t c d g = record {
      blocks = b;
      last = merged run e;
      post = post;
      elems_eq = g.elems_eq ∙ append_assoc a b (merged run e ∷ post);
      end_eq = omega (arith, g.end_eq, after_prefix-eq (a ++ b) 1, length-append a b);
      blocks-IsContiguous = rw (merged-start c.middle run e c.run-IsContiguous) c.b-IsContiguous;
      post-IsContiguous = rw (merged-end run e) c.post-IsContiguous;
      starts = omega (
        arith,
        merged-start c.middle run e c.run-IsContiguous,
        IsContiguous-le c.middle run e.range.start c.run-IsContiguous,
        c.starts,
      );
      ends = rw (merged-end run e) d;
      same = λ o.
          lookup-append view b (merged run e ∷ post) (run ++ (e ∷ post)) o
            (lookup-merged c.middle run e post o c.run-IsContiguous c.nonempty g.same)
          ∙ c.same o;
    }
