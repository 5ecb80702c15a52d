-- ===== src/DedupRangeMap/Split.antt =====
-- dedup_range_map.rs: the element that covers an offset, and its split there.
use miri.Base.{
  ℕ, ◌≤◌, ◌<◌, ◌≡◌, refl, ap, true, false, ◌||◌, ◌==◌, ltb, leb, if◌then◌else◌, List, [], ◌∷◌, ◌++◌,
  ret, Bool, Bool-cases, inl, inr, arith,
}
use miri.DedupRangeMap.{Elem, with_end, with_start, find_offset, split_elem, split_index}
use miri.DedupRangeMap.Lookup.{
  lookup, IsContiguous, after_prefix, after_prefix-suc, get-append, set-append, take-append,
  drop-append, append_assoc,
}

module _ {T : Type 0} where
  -- the elements before and after the one that covers an offset
  pub record Found (a : ℕ) (v : List (Elem T)) (n : ℕ) (offset : ℕ) : Type 0 where
    pub before : List (Elem T)
    pub elem : Elem T
    pub after : List (Elem T)
    pub elems_eq : v ≡ before ++ (elem ∷ after)
    pub index_eq : find_offset v offset ≡ ret (after_prefix before 0)
    pub before-IsContiguous : IsContiguous a before elem.range.start
    pub after-IsContiguous : IsContiguous elem.range.end after n
    pub starts : elem.range.start ≤ offset
    pub ends : offset < elem.range.end

  pub find_offset-Found :
      (a : ℕ) (v : List (Elem T)) (n offset : ℕ)
      → IsContiguous a v n
      → a ≤ offset
      → offset < n
      → Found a v n offset
  unfolding find_offset
  find_offset-Found a [] n offset c l h = absurd (omega arith)
  find_offset-Found a (e ∷ v) n offset c l h = elim (Bool-cases (leb e.range.end offset)) [
    | inl y ↦ later y (find_offset-Found e.range.end v n offset (c.2) (ground arith) h)
    | inr d ↦ record {
      before = [];
      elem = e;
      after = v;
      elems_eq = refl;
      index_eq = (let f : ltb offset e.range.start ≡ false = ground arith in rw (f, d) refl);
      before-IsContiguous = omega arith;
      after-IsContiguous = c.2;
      starts = omega arith;
      ends = ground arith;
    }
  ]
    where
      later :
          leb e.range.end offset ≡ true → Found e.range.end v n offset → Found a (e ∷ v) n offset
      later y r = record {
        before = e ∷ r.before;
        elem = r.elem;
        after = r.after;
        elems_eq = ap (λ w. e ∷ w) r.elems_eq;
        index_eq =
            (let f : ltb offset e.range.start ≡ false = ground arith in rw (f, y, r.index_eq) refl);
        before-IsContiguous = (c.0, c.1, r.before-IsContiguous);
        after-IsContiguous = r.after-IsContiguous;
        starts = r.starts;
        ends = r.ends;
      }

  -- whether a split at the offset is necessary
  abbrev pub at_edge : Elem T → ℕ → Bool
  at_edge e k = (k == e.range.start) || (k == e.range.end)

  abbrev pub split_at : Elem T → ℕ → List (Elem T) → List (Elem T)
  split_at e k after = if at_edge e k then e ∷ after else with_end e k ∷ with_start e k ∷ after

  pub split_index_lem :
      (before : List (Elem T)) (e : Elem T) (after : List (Elem T)) (k : ℕ)
      → e.range.start ≤ k
      → k ≤ e.range.end
      → split_index (before ++ (e ∷ after)) (after_prefix before 0) k
        ≡ ret (record {
          was_split = if at_edge e k then false else true;
          elems = before ++ split_at e k after;
        })
  unfolding split_index split_elem
  split_index_lem before e after k l h = elim (Bool-cases (at_edge e k)) [
    | inl y ↦ rw (get-append before (e ∷ after) 0, y) refl
    | inr d ↦
        let p : leb e.range.start k ≡ true = ground arith in
        let q : ltb k e.range.end ≡ true = ground arith in
        rw (get-append before (e ∷ after) 0, d, p, q)
          (rw
            (
              set-append before (e ∷ after) 0 (with_end e k),
              after_prefix-suc before 0,
              take-append before (with_end e k ∷ after) 1,
              drop-append before (with_end e k ∷ after) 1,
              append_assoc before (with_end e k ∷ []) (with_start e k ∷ after),
            )
            refl)
  ]

module _ {T K : Type 0} (view : T → K) where
  pub lookup-split_at :
      (e : Elem T) (k : ℕ) (after : List (Elem T)) (o : ℕ)
      → e.range.start ≤ k
      → k ≤ e.range.end
      → lookup view (split_at e k after) o ≡ lookup view (e ∷ after) o
  lookup-split_at e k after o l h = elim (Bool-cases (at_edge e k)) [
    | inl y ↦ rw (y) refl
    | inr d ↦ rw (d) (ground arith)
  ]
