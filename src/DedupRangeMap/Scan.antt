-- ===== src/DedupRangeMap/Scan.antt =====
-- dedup_range_map.rs: one round of the scan in `iter_mut`, which may merge a block of equal elements.
use miri.Base.{
  ℕ, suc, ◌+◌, ◌<◌, ◌≡◌, refl, sym, ap, ◌∙◌, ◌⊎◌, inl, inr, true, false, ◌||◌, not, ltb, leb, List,
  [], ◌∷◌, ◌++◌, length, ret, Returns, weaken_Returns, Bool, Bool-cases, arith,
}
use miri.DedupRangeMap.{Elem, ScanState, block_ends, merge_if, try_merge, advance, scan_round}
use miri.DedupRangeMap.Lookup.{
  after_prefix, after_prefix-eq, after_prefix-suc, get-append, length-append,
}
use miri.DedupRangeMap.Block.{
  InBlock, Joined, first, get-first, get-next, block_state, SameValue, first-value, merge_block_lem,
  AfterRound,
}

module _ {T K : Type 0} (view : T → K) (eq : T → T → Bool)
    (sound : (x y : T) → eq x y ≡ true → view x ≡ view y) where
  block_ends_lem :
      (p run : List (Elem T)) (e e' : Elem T) (q : List (Elem T)) (count : ℕ)
      → block_ends eq false (block_state p run e (e' ∷ q) count)
        ≡ ret (not (eq e'.value (first run e).value))
  unfolding block_ends
  block_ends_lem p run e e' q count =
      rw
        (
          get-append p (run ++ (e ∷ e' ∷ q)) (suc (length run)),
          get-next run e e' q,
          get-append p (run ++ (e ∷ e' ∷ q)) 0,
          get-first run e (e' ∷ q),
        )
        refl

  merge_if_lem :
      (ends : Bool) (p run : List (Elem T)) (e e' : Elem T) (q : List (Elem T)) (count : ℕ)
      → SameValue view e run
      → (ends ≡ false → view e.value ≡ view e'.value)
      → Returns
          (merge_if ends (block_state p run e (e' ∷ q) count))
          (AfterRound view p run e (e' ∷ q))
  unfolding merge_if
  merge_if_lem true p run e e' q count a v =
      weaken_Returns (Joined view p run e (e' ∷ q)) (AfterRound view p run e (e' ∷ q)) _
        (merge_block_lem view p run e (e' ∷ q) count a) (λ t m. inr m)
  merge_if_lem false p run e e' q count a v =
      inl (record { elems_eq = refl; end_eq = refl; block = inr (e', q, refl, refl, (a, v refl)) })

  try_merge_lem :
      (done : Bool) (p run : List (Elem T)) (e : Elem T) (post : List (Elem T)) (count : ℕ)
      → SameValue view e run
      → (done ≡ true) ⊎ (0 < length post)
      → ltb 0 count ≡ true
      → Returns (try_merge eq done (block_state p run e post count)) (AfterRound view p run e post)
  unfolding try_merge merge_if block_ends
  try_merge_lem true p run e post count a d b = rw (b) (
      weaken_Returns (Joined view p run e post) (AfterRound view p run e post) _
        (merge_block_lem view p run e post count a) (λ t m. inr m))
  try_merge_lem false p run e [] count a d b = absurd (ground arith)
  try_merge_lem false p run e (e' ∷ q) count a d b =
      rw (b, block_ends_lem p run e e' q count)
        (merge_if_lem (not (eq e'.value (first run e).value)) p run e e' q count a same)
    where
      same : not (eq e'.value (first run e).value) ≡ false → view e.value ≡ view e'.value
      same n =
          sym (first-value view run e a) ∙ sym (sound e'.value (first run e).value (ground arith))

  -- one round: a block that ends is merged, and else the element joins it
  pub scan_round_lem :
      (end : ℕ) (p run : List (Elem T)) (e : Elem T) (post : List (Elem T)) (s : ScanState T)
      → InBlock view p run e post s
      → (leb end e.range.end ≡ true) ⊎ (0 < length post)
      → Returns (scan_round eq end e s) (AfterRound view p run e post)
  unfolding scan_round try_merge
  scan_round_lem end p run e post s i d =
      rw (in_range) (by_count i.block (Bool-cases (ltb 0 s.successful_merge_count)))
    where
      elems-length : length s.elems ≡ after_prefix p (suc (length run)) + length post
      elems-length = rw (i.elems_eq) (
          omega (
            arith,
            length-append p (run ++ (e ∷ post)),
            length-append run (e ∷ post),
            after_prefix-eq p (suc (length run)),
          ))

      in_range : (leb end e.range.end || ltb (suc s.end_idx) (length s.elems)) ≡ true
      in_range = ground (arith, elems-length, i.end_eq, after_prefix-suc p (length run), d)

      state_eq :
          s.equal_since_idx ≡ after_prefix p 0
          → advance s ≡ block_state p run e post s.successful_merge_count
      state_eq h = rw (i.elems_eq, i.end_eq, h, after_prefix-suc p (length run)) refl

      kept : s.successful_merge_count ≡ 0 → AfterRound view p run e post (advance s)
      kept z = inl (record {
        elems_eq = i.elems_eq;
        end_eq = ap suc i.end_eq ∙ after_prefix-suc p (length run);
        block = inl z;
      })

      by_count :
          ((s.successful_merge_count ≡ 0)
            ⊎ ((s.equal_since_idx ≡ after_prefix p 0) × SameValue view e run))
          → ((ltb 0 s.successful_merge_count ≡ true) ⊎ (ltb 0 s.successful_merge_count ≡ false))
          → Returns (try_merge eq (leb end e.range.end) (advance s)) (AfterRound view p run e post)
      by_count (inl z) (inl b) = absurd (ground arith)
      by_count (inr h) (inl b) =
          rw (state_eq h.0)
            (try_merge_lem (leb end e.range.end) p run e post s.successful_merge_count (h.1) d b)
      by_count block (inr b) = rw (b) (kept (ground arith))
