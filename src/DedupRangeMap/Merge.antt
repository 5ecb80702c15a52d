-- ===== src/DedupRangeMap/Merge.antt =====
-- dedup_range_map.rs: the merging of all neighbours with equal data.
use miri.Base.{
  ℕ, ◌<◌, ◌≡◌, refl, sym, ap, ◌∙◌, Bool, true, false, ◌==◌, List, [], ◌∷◌, ◌++◌, some, Returns,
  bind_Returns, weaken_Returns, Bool-cases, inl, inr, arith,
}
use miri.DedupRangeMap.{Elem, with_end, merge_next, merge_all, merge_adjacent_thorough}
use miri.DedupRangeMap.Lookup.{
  lookup, lookup-append, IsContiguous, append_assoc, append_nil, lookup-append-left,
}

module _ {T : Type 0} (eq : T → T → Bool) where
  -- the data differs from that of the first element
  abbrev pub Differs : T → List (Elem T) → Type 0
  Differs x [] = Unit
  Differs x (y ∷ v) = eq x y.value ≡ false

  -- no element tests equal to the next
  abbrev pub IsMerged : List (Elem T) → Type 0
  IsMerged [] = Unit
  IsMerged (x ∷ v) = Differs x.value v × IsMerged v

module _ {T K : Type 0} (view : T → K) (eq : T → T → Bool)
    (sound : (x y : T) → eq x y ≡ true → view x ≡ view y) where
  record Next (a : ℕ) (v : List (Elem T)) (elem : Elem T) (w : List (Elem T)) : Type 0 where
    contiguous : IsContiguous a w elem.range.end
    same : (o : ℕ) → lookup view w o ≡ lookup view (v ++ (elem ∷ [])) o
    distinct : IsMerged eq w
    heads : (x : T) (p : Elem T) (r : List (Elem T)) → v ≡ p ∷ r → Differs eq x v → Differs eq x w

  merge_two :
      (prev elem : Elem T) (o : ℕ)
      → prev.range.start < prev.range.end
      → elem.range.start < elem.range.end
      → elem.range.start ≡ prev.range.end
      → view prev.value ≡ view elem.value
      → lookup view (with_end prev elem.range.end ∷ []) o ≡ lookup view (prev ∷ elem ∷ []) o
  merge_two prev elem o p q l h =
      let v : some (view prev.value) ≡ some (view elem.value) = ap some h in ground (arith, v)

  merge_next_lem :
      (a : ℕ) (v : List (Elem T)) (elem : Elem T)
      → IsContiguous a v elem.range.start
      → elem.range.start < elem.range.end
      → IsMerged eq v
      → Returns (merge_next eq v elem) (Next a v elem)
  unfolding merge_next
  merge_next_lem a [] elem c n d = record {
    contiguous = (sym c, n, refl);
    same = λ o. refl;
    distinct = (tt, tt);
    heads = λ x p r h k. cc;
  }
  merge_next_lem a (prev ∷ []) elem c n d = elim (Bool-cases (eq prev.value elem.value)) [
    | inl y ↦
        let joined : prev.range.end == elem.range.start ≡ true = ground (arith, c.2) in
        rw (y, joined)
          (record {
            contiguous = (c.0, omega (arith, c.1, c.2), refl);
            same = λ o. merge_two prev elem o (c.1) n (sym (c.2)) (sound prev.value elem.value y);
            distinct = (tt, tt);
            heads = λ x p r h k. k;
          })
    | inr f ↦ rw (f) (record {
      contiguous = (c.0, c.1, (sym (c.2), n, refl));
      same = λ o. refl;
      distinct = (f, (tt, tt));
      heads = λ x p r h k. k;
    })
  ]
  merge_next_lem a (x ∷ y ∷ v) elem c n d =
      bind_Returns (Next x.range.end (y ∷ v) elem) (Next a (x ∷ y ∷ v) elem)
        (merge_next eq (y ∷ v) elem) _ (merge_next_lem x.range.end (y ∷ v) elem (c.2) n (d.1))
        (λ w r. record {
          contiguous = (c.0, c.1, r.contiguous);
          same = λ o. lookup-append view (x ∷ []) w (y ∷ (v ++ (elem ∷ []))) o (r.same o);
          distinct = (r.heads x.value y v refl (d.0), r.distinct);
          heads = λ z p q h k. k;
        })

  merge_all_lem :
      (v elems : List (Elem T)) (b n : ℕ)
      → IsContiguous 0 v b
      → IsContiguous b elems n
      → IsMerged eq v
      → Returns (merge_all eq v elems) (λ w.
        IsContiguous 0 w n
        × ((o : ℕ) → lookup view w o ≡ lookup view (v ++ elems) o)
        × IsMerged eq w)
  unfolding merge_all
  merge_all_lem v [] b n c e d = rw (append_nil v) (rw (sym e) c, λ o. refl, d)
  merge_all_lem v (x ∷ elems) b n c e d =
      bind_Returns (Next 0 v x) _ (merge_next eq v x) _ (merge_next_lem 0 v x (rw (e.0) c) (e.1) d)
        (λ w r.
          weaken_Returns
            (λ u.
              IsContiguous 0 u n
              × ((o : ℕ) → lookup view u o ≡ lookup view (w ++ elems) o)
              × IsMerged eq u)
            _ (merge_all eq w elems)
            (merge_all_lem w elems x.range.end n r.contiguous (e.2) r.distinct)
            (λ u q. (q.0, λ o. q.1 o ∙ rest w r o, q.2)))
    where
      rest :
          (w : List (Elem T))
          → Next 0 v x w
          → (o : ℕ) → lookup view (w ++ elems) o ≡ lookup view (v ++ (x ∷ elems)) o
      rest w r o =
          lookup-append-left view w (v ++ (x ∷ [])) elems o (r.same o)
          ∙ ap (λ u. lookup view u o) (append_assoc v (x ∷ []) elems)

  -- Let the test for equal data say that two data look the same to `view`. On a map without gaps,
  -- the merging of all neighbours returns a map without gaps of the same length, whose data looks as
  -- before at every offset, and in which no element tests equal to the next.
  pub merge_adjacent_thorough_lem :
      (v : List (Elem T)) (n : ℕ)
      → IsContiguous 0 v n
      → Returns
          (merge_adjacent_thorough eq v)
          (λ w. IsContiguous 0 w n × ((o : ℕ) → lookup view w o ≡ lookup view v o) × IsMerged eq w)
  unfolding merge_adjacent_thorough
  merge_adjacent_thorough_lem v n c = merge_all_lem [] v 0 n refl c tt
