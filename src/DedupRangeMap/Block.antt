-- ===== src/DedupRangeMap/Block.antt =====
-- dedup_range_map.rs: the merge of a block of equal elements in `iter_mut`.
use miri.Base.{
  ℕ, zero, suc, ◌-◌, ◌<◌, ◌≡◌, refl, ◌∙◌, ◌⊎◌, true, ltb, leb, if◌then◌else◌, List, [], ◌∷◌, ◌++◌,
  All, length, drop, get_elem?, some, ret, Returns, arith,
}
use miri.DedupRangeMap.{Elem, ScanState, with_end, remove_block, keep_block, merge_block}
use miri.DedupRangeMap.Lookup.{
  after_prefix, after_prefix-eq, after_prefix-suc, get-append, set-append, take-append, drop-append,
  append_assoc,
}

module _ {T : Type 0} where
  -- the first of the elements `run` and `e`, and that element made to cover them all
  abbrev pub first : List (Elem T) → Elem T → Elem T
  first [] e = e
  first (r ∷ run) e = r

  abbrev pub merged : List (Elem T) → Elem T → Elem T
  merged [] e = e
  merged (r ∷ run) e = with_end r e.range.end

  pub get-first :
      (run : List (Elem T)) (e : Elem T) (q : List (Elem T))
      → get_elem? (run ++ (e ∷ q)) zero ≡ some (first run e)
  get-first [] e q = refl
  get-first (r ∷ run) e q = refl

  pub get-run :
      (run : List (Elem T)) (e : Elem T) (q : List (Elem T))
      → get_elem? (run ++ (e ∷ q)) (length run) ≡ some e
  get-run [] e q = refl
  get-run (r ∷ run) e q = get-run run e q

  pub get-next :
      (run : List (Elem T)) (e e' : Elem T) (q : List (Elem T))
      → get_elem? (run ++ (e ∷ e' ∷ q)) (suc (length run)) ≡ some e'
  get-next [] e e' q = refl
  get-next (r ∷ run) e e' q = get-next run e e' q

  drop-run :
      (run : List (Elem T)) (e : Elem T) (q : List (Elem T))
      → drop (suc (length run)) (run ++ (e ∷ q)) ≡ q
  drop-run [] e q = refl
  drop-run (r ∷ run) e q = drop-run run e q

  -- a state whose block is `run` and `e`
  abbrev pub block_state : List (Elem T) → List (Elem T) → Elem T → List (Elem T) → ℕ → ScanState T
  block_state p run e post count = record {
    elems = p ++ (run ++ (e ∷ post));
    equal_since_idx = after_prefix p 0;
    end_idx = after_prefix p (suc (length run));
    successful_merge_count = count;
  }

  merge_block-eq :
      (s : ScanState T) (last fst : Elem T)
      → s.equal_since_idx < s.end_idx
      → get_elem? s.elems (s.end_idx - 1) ≡ some last
      → get_elem? s.elems s.equal_since_idx ≡ some fst
      → (let removed_elems : ℕ = s.end_idx - s.equal_since_idx - 1 in
          merge_block s
          ≡ ret
              (if ltb 0 removed_elems then remove_block s removed_elems fst last else keep_block s))
  unfolding merge_block
  merge_block-eq s last fst h g k =
      let b : leb s.equal_since_idx s.end_idx ≡ true = ground arith in
      let c : leb 1 (s.end_idx - s.equal_since_idx) ≡ true = ground arith in rw (b, c, g, k) refl

module _ {T K : Type 0} (view : T → K) where
  abbrev pub SameValue : Elem T → List (Elem T) → Type 0
  SameValue e run = All (λ x. view x.value ≡ view e.value) run

  pub first-value :
      (run : List (Elem T)) (e : Elem T) → SameValue e run → view (first run e).value ≡ view e.value
  first-value [] e a = refl
  first-value (r ∷ run) e a = a.0

  pub SameValue-snoc :
      (run : List (Elem T)) (e e' : Elem T)
      → SameValue e run
      → view e.value ≡ view e'.value
      → SameValue e' (run ++ (e ∷ []))
  SameValue-snoc [] e e' a p = (p, tt)
  SameValue-snoc (r ∷ run) e e' a p = (a.0 ∙ p, SameValue-snoc run e e' (a.1) p)

  -- the elements before the block, the block `run`, the element to look at, and the rest
  pub record InBlock (p run : List (Elem T)) (e : Elem T) (post : List (Elem T)) (s : ScanState T)
      : Type 0 where
    pub elems_eq : s.elems ≡ p ++ (run ++ (e ∷ post))
    pub end_eq : s.end_idx ≡ after_prefix p (length run)
    pub block :
        (s.successful_merge_count ≡ 0) ⊎ ((s.equal_since_idx ≡ after_prefix p 0) × SameValue e run)

  -- a round that leaves the elements, with the element at the next position
  pub record Extended (p run : List (Elem T)) (e : Elem T) (post : List (Elem T)) (s : ScanState T)
      : Type 0 where
    pub elems_eq : s.elems ≡ p ++ (run ++ (e ∷ post))
    pub end_eq : s.end_idx ≡ after_prefix p (suc (length run))
    pub block :
        (s.successful_merge_count ≡ 0)
        ⊎ ((e' : Elem T) × (q : List (Elem T)) × (post ≡ e' ∷ q)
            × (s.equal_since_idx ≡ after_prefix p 0)
            × (SameValue e run × (view e.value ≡ view e'.value)))

  pub record Joined (p run : List (Elem T)) (e : Elem T) (post : List (Elem T)) (s : ScanState T)
      : Type 0 where
    pub elems_eq : s.elems ≡ p ++ (merged run e ∷ post)
    pub end_eq : s.end_idx ≡ after_prefix p 1
    pub since_eq : s.equal_since_idx ≡ after_prefix p 1
    pub same : SameValue e run

  pub merge_block_lem :
      (p run : List (Elem T)) (e : Elem T) (post : List (Elem T)) (count : ℕ)
      → SameValue e run
      → Returns (merge_block (block_state p run e post count)) (Joined p run e post)
  merge_block_lem p run e post count a =
      rw
        (merge_block-eq (block_state p run e post count) e (first run e)
          (omega (arith, after_prefix-eq p 0, after_prefix-eq p (suc (length run))))
          (rw (before_last) (get-append p (run ++ (e ∷ post)) (length run) ∙ get-run run e post))
          (get-append p (run ++ (e ∷ post)) 0 ∙ get-first run e post))
        (by_run run a)
    where
      before_last : after_prefix p (suc (length run)) - 1 ≡ after_prefix p (length run)
      before_last =
          omega (arith, after_prefix-eq p (length run), after_prefix-eq p (suc (length run)))

      by_run :
          (run : List (Elem T))
          → SameValue e run
          → (let s : ScanState T = block_state p run e post count in
              let removed_elems : ℕ = s.end_idx - s.equal_since_idx - 1 in
              Joined p run e post (
                if ltb 0 removed_elems
                then remove_block s removed_elems (first run e) e
                else keep_block s))
      by_run [] a =
          let z : after_prefix p 1 - after_prefix p 0 - 1 ≡ 0 =
            omega (arith, after_prefix-eq p 0, after_prefix-eq p 1) in
          rw (z) (record { elems_eq = refl; end_eq = refl; since_eq = refl; same = tt })
      by_run (r ∷ run) a =
          let z : after_prefix p (suc (suc (length run))) - after_prefix p 0 - 1
              ≡ suc (length run) =
            omega (arith, after_prefix-eq p 0, after_prefix-eq p (suc (suc (length run)))) in
          let one : after_prefix p (suc (suc (length run))) - suc (length run) ≡ after_prefix p 1 =
            omega (arith, after_prefix-eq p 1, after_prefix-eq p (suc (suc (length run)))) in
          let w : Elem T = with_end r e.range.end in
          let pos : ltb 0 (suc (length run)) ≡ true = ground arith in
          rw (z, pos)
            (record {
              elems_eq =
                  rw (set-append p (r ∷ (run ++ (e ∷ post))) 0 w, after_prefix-suc p 0)
                    (rw
                      (
                        take-append p (w ∷ (run ++ (e ∷ post))) 1,
                        drop-append p (w ∷ (run ++ (e ∷ post))) (suc (suc (length run))),
                        append_assoc p (w ∷ []) (drop (suc (length run)) (run ++ (e ∷ post))),
                        drop-run run e post,
                      )
                      refl);
              end_eq = one;
              since_eq = one;
              same = a;
            })

  -- what a round leaves
  abbrev pub AfterRound :
      List (Elem T) → List (Elem T) → Elem T → List (Elem T) → ScanState T → Type 0
  AfterRound p run e post t = Extended p run e post t ⊎ Joined p run e post t
