-- ===== src/DedupRangeMap/ScanLoop.antt =====
-- dedup_range_map.rs: the loop in `iter_mut` ends, and has found the end of the range.
use miri.Base.{
  ℕ, zero, suc, ◌≤◌, ◌<◌, ◌≡◌, ◌∙◌, inl, inr, true, leb, List, [], ◌∷◌, ◌++◌, length, get_elem?,
  some, Returns, bind_Returns, Bool, Bool-cases, arith,
}
use miri.DedupRangeMap.{Elem, ScanState, scan_round, scan_loop}
use miri.DedupRangeMap.Lookup.{IsContiguous, get-append}
use miri.DedupRangeMap.Block.{merged, get-run, InBlock, AfterRound}
use miri.DedupRangeMap.Scan.{scan_round_lem}
use miri.DedupRangeMap.Loop.{Reached, Scanned, extend-Reached, merge-Reached}
use miri.DedupRangeMap.Reach.{extend-InBlock, merge-InBlock, extend-Scanned, merge-Scanned}

more_elements :
    {T : Type 0} (e n : ℕ) (post : List (Elem T)) → IsContiguous e post n → e < n → 0 < length post
more_elements e n [] c h = absurd (omega arith)
more_elements e n (x ∷ post) c h = omega arith

module _ {T K : Type 0} (view : T → K) (eq : T → T → Bool)
    (sound : (x y : T) → eq x y ≡ true → view x ≡ view y) (a : List (Elem T)) (offset end n : ℕ)
    (v : List (Elem T)) where
  abbrev LoopEnds : ℕ → Type 0
  LoopEnds fuel =
      (b run : List (Elem T)) (e : Elem T) (post : List (Elem T)) (s : ScanState T)
      → InBlock view (a ++ b) run e post s
      → Scanned view offset end n v b run e post
      → length post < fuel
      → Returns (scan_loop fuel eq end s) (Reached view a offset end n v)

  next_round :
      (fuel : ℕ) (b run : List (Elem T)) (e : Elem T) (post : List (Elem T)) (t : ScanState T)
      → LoopEnds fuel
      → Scanned view offset end n v b run e post
      → length post < suc fuel
      → end ≤ n
      → e.range.end < end
      → AfterRound view (a ++ b) run e post t
      → Returns (scan_loop fuel eq end t) (Reached view a offset end n v)
  next_round fuel b run e [] t ih c h l d r = absurd (omega (arith, c.post-IsContiguous))
  next_round fuel b run e (e' ∷ q) t ih c h l d (inl g) =
      ih b (run ++ (e ∷ [])) e' q t (extend-InBlock view (a ++ b) run e e' q t g)
        (extend-Scanned view offset end n v b run e e' q c d) (omega arith)
  next_round fuel b run e (e' ∷ q) t ih c h l d (inr g) =
      ih (b ++ (merged run e ∷ [])) [] e' q t (merge-InBlock view a b run e e' q t g)
        (merge-Scanned view offset end n v b run e e' q c d g.same) (omega arith)

  last_round :
      (b run : List (Elem T)) (e : Elem T) (post : List (Elem T)) (t : ScanState T)
      → Scanned view offset end n v b run e post
      → end ≤ e.range.end
      → AfterRound view (a ++ b) run e post t
      → Reached view a offset end n v t
  last_round b run e post t c d (inl g) = extend-Reached view a offset end n v b run e post t c d g
  last_round b run e post t c d (inr g) = merge-Reached view a offset end n v b run e post t c d g

  -- With fuel for each element that is left and one round more, the loop ends at the end.
  pub scan_loop_lem :
      (fuel : ℕ) (b run : List (Elem T)) (e : Elem T) (post : List (Elem T)) (s : ScanState T)
      → InBlock view (a ++ b) run e post s
      → Scanned view offset end n v b run e post
      → length post < fuel
      → end ≤ n
      → Returns (scan_loop fuel eq end s) (Reached view a offset end n v)
  unfolding scan_loop
  scan_loop_lem zero b run e post s i c h l = absurd (omega arith)
  scan_loop_lem (suc fuel) b run e post s i c h l =
      rw (at_end) (elim (Bool-cases (leb end e.range.end)) [
        | inl y ↦
            bind_Returns (AfterRound view (a ++ b) run e post) (Reached view a offset end n v)
              (scan_round eq end e s) _
              (scan_round_lem view eq sound end (a ++ b) run e post s i (inl y))
              (λ t r. rw (y) (last_round b run e post t c (ground arith) r))
        | inr d ↦
            bind_Returns (AfterRound view (a ++ b) run e post) (Reached view a offset end n v)
              (scan_round eq end e s) _
              (scan_round_lem view eq sound end (a ++ b) run e post s i
                (inr (more_elements e.range.end n post c.post-IsContiguous (ground arith))))
              (λ t r. rw (d) (
                next_round fuel b run e post t
                  (λ b' run' e' post' s' i' c' h'.
                    scan_loop_lem fuel b' run' e' post' s' i' c' h' l)
                  c h l (ground arith) r))
      ])
    where
      at_end : get_elem? s.elems s.end_idx ≡ some e
      at_end =
          rw (i.elems_eq, i.end_eq)
            (get-append (a ++ b) (run ++ (e ∷ post)) (length run) ∙ get-run run e post)
