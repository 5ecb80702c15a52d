-- ===== src/DataRace/Creation.antt =====
-- data_race.rs: `thread_created` and the search for a vector index to reuse. The order in which the hash
-- set of candidates is walked is an argument.
use miri.Base.{
  ℕ, Bool, true, not, ◌||◌, ◌==◌, leb, if◌then◌else◌, Option, none, some, List, [], ◌∷◌, ◌++◌,
  length, get_elem?, set_elem, Outcome, ret, ◌>>=◌, ◌>>◌, assert, unwrap,
}
use miri.VectorClock.Timestamp.{Spans, time}
use miri.VectorClock.{at, join}
use miri.DataRace.Cell.{ThreadClockSet}
use miri.DataRace.Threads.{
  GlobalState, contains, remove, all_from, default_clocks, ensure_contains, thread_index, clocks_at,
  with_clocks, increment_clock,
}

module _ {Span : Type 0} ⦃s : Spans Span⦄ where
  -- no running thread can report a race with the candidate
  abbrev pub reusable : GlobalState Span → ℕ → ℕ → Bool
  reusable g candidate target_timestamp =
      all_from 0
        (λ clock_idx x.
          leb target_timestamp (time (at x.clock candidate))
          || contains g.reuse_candidates clock_idx)
        g.vector_clocks

  unfoldable pub find_candidate : GlobalState Span → List ℕ → Outcome (Option ℕ)
  find_candidate g [] = ret none
  find_candidate g (candidate ∷ l) =
      let rest = find_candidate g l in
      clocks_at g candidate >>= λ x.
      if reusable g candidate (time (at x.clock candidate)) then ret (some candidate) else rest

  -- `assert!(reuse.remove(&candidate))`
  taken : GlobalState Span → Option ℕ → Outcome (Option ℕ × GlobalState Span)
  taken g none = ret (none, g)
  taken g (some candidate) =
      assert (contains g.reuse_candidates candidate)
      >> ret (some candidate, record g { reuse_candidates = remove candidate g.reuse_candidates })

  unfoldable pub find_vector_index_reuse_candidate :
      (List ℕ → List ℕ) → GlobalState Span → Outcome (Option ℕ × GlobalState Span)
  unfolding find_candidate taken
  find_vector_index_reuse_candidate order g =
      find_candidate g (order g.reuse_candidates) >>= taken g

  -- the index of the new thread
  unfoldable pub assign_index :
      ℕ → Span → Option ℕ × GlobalState Span → Outcome (ℕ × GlobalState Span)
  unfolding increment_clock
  assign_index thread current_span (none, g) =
      ret (length g.vector_info, record g { vector_info = g.vector_info ++ (thread ∷ []) })
  assign_index thread current_span (some reuse_index, g) = do
    x ← clocks_at g reuse_index
    x' ← increment_clock x reuse_index current_span
    old_thread ← unwrap (get_elem? g.vector_info reuse_index)
    info ← unwrap (get_elem? g.thread_info old_thread)
    ret (
      reuse_index,
      record g {
        vector_clocks = set_elem g.vector_clocks reuse_index x';
        vector_info = set_elem g.vector_info reuse_index thread;
        thread_info = set_elem g.thread_info old_thread (record info { vector_index = none });
      },
    )

  -- a thread clock set for an index that is new
  abbrev pub with_clock_set : ℕ → GlobalState Span → GlobalState Span
  with_clock_set created g =
      if created == length g.vector_clocks
      then record g { vector_clocks = g.vector_clocks ++ (default_clocks ∷ []) }
      else g

  abbrev pub join_with : ThreadClockSet Span → ThreadClockSet Span → ThreadClockSet Span
  join_with x other = record x { clock = join x.clock other.clock }

  -- the clocks of both threads; `pick2_mut` wants two different indices
  unfoldable pub start_thread : ℕ → ℕ → Span → GlobalState Span → Outcome (GlobalState Span)
  unfolding increment_clock join
  start_thread current_index created_index current_span g = do
    assert (not (current_index == created_index))
    current ← clocks_at g current_index
    created ← clocks_at g created_index
    current' ← increment_clock current current_index current_span
    created' ← increment_clock (join_with created current) created_index current_span
    ret (with_clocks (with_clocks g current_index current') created_index created')

  unfoldable pub thread_created :
      (List ℕ → List ℕ) → ℕ → ℕ → Span → GlobalState Span → Outcome (GlobalState Span)
  unfolding find_vector_index_reuse_candidate assign_index start_thread
  thread_created order thread active current_span g = do
    current_index ← thread_index g active
    found ←
        find_vector_index_reuse_candidate order
          (record g { multi_threaded = true; thread_info = ensure_contains thread g.thread_info })
    (created_index, g1) ← assign_index thread current_span found
    info ← unwrap (get_elem? g1.thread_info thread)
    start_thread current_index created_index current_span (
        with_clock_set created_index (record g1 {
          thread_info =
              set_elem g1.thread_info thread (record info { vector_index = some created_index });
        }))
