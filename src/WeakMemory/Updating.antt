-- ===== src/WeakMemory/Updating.antt =====
-- weak_memory.rs: what an atomic access of the running thread does to the store buffers.
use miri.Base.{
  ℕ, ◌<◌, ◌≡◌, refl, ap, ◌∙◌, Bool, if◌then◌else◌, Option, some, [], ◌∷◌, get_elem?, Outcome, ret,
  ◌>>=◌,
}
use miri.VectorClock.Timestamp.{Spans}
use miri.VectorClock.{VClock}
use miri.RangeObjectMap.{AllocRange, end, u64_mod}
use miri.RangeObjectMap.Search.{IsSorted}
use miri.RangeObjectMap.Remove.{kept}
use miri.DataRace.Orderings.{AtomicRwOrd, AtomicWriteOrd}
use miri.DataRace.Cell.{ThreadClockSet}
use miri.DataRace.Ranges.{Ranges, sync_clock}
use miri.DataRace.Threads.{GlobalState, thread_index, clocks_at, sc_write, sc_read}
use miri.WeakMemory.{StoreBuffer, read_from_last_store, buffered_write}
use miri.WeakMemory.Buffers.{
  StoreBufferAlloc, BufferMut, get_store_buffer, get_or_create_store_buffer_mut,
}
use miri.WeakMemory.Objects.{
  returned, overlaps-own, or_new, BufferSpec, get_or_create_store_buffer_mut_lem,
}
use miri.WeakMemory.Atomics.{
  alloc_vclocks, vclocks, set_object, rmw_seq_cst, write_seq_cst, buffered_atomic_write,
  read_latest, write_latest, update_buffer, buffered_atomic_rmw,
}
use miri.WeakMemory.Assign.{set_object-IsSorted, get-set_object, kept-set_object}

module _ {Span Scalar : Type 0} ⦃s : Spans Span⦄ where
  -- the buffers after an operation `f` on the one at the range, which is made if there is none
  pub record Updated (range : AllocRange) (init : Option Scalar)
      (f : StoreBuffer Span Scalar → StoreBuffer Span Scalar)
      (buffers after : StoreBufferAlloc Span Scalar) : Type 0 where
    pub sorted : IsSorted after
    pub others : kept after range ≡ kept buffers range
    pub found : Option (StoreBuffer Span Scalar)
    pub found_eq : get_store_buffer range buffers ≡ ret found
    pub position : ℕ
    pub updated :
        get_elem? after position ≡ some (record { range = range; object = f (or_new init found) })

  set-Updated :
      (range : AllocRange) (init : Option Scalar)
      (f : StoreBuffer Span Scalar → StoreBuffer Span Scalar)
      (buffers : StoreBufferAlloc Span Scalar) (m : BufferMut Span Scalar)
      → 0 < range.size
      → BufferSpec range init buffers m
      → Updated range init f buffers (set_object m.position (f m.buffer) m.buffers)
  set-Updated range init f buffers m p (h, g, k, (o, q, r)) = record {
    sorted = set_object-IsSorted m.position (f m.buffer) m.buffers h;
    others =
        kept-set_object m.position (f m.buffer) range m.buffers g (overlaps-own range m.buffer p)
        ∙ k;
    found = o;
    found_eq = q;
    position = m.position;
    updated =
        get-set_object m.position (f m.buffer) range m.buffers g refl
        ∙ ap (λ b. some (record { range = range; object = f b })) r;
  }

  update_buffer-Updated :
      (range : AllocRange) (init : Option Scalar)
      (f : StoreBuffer Span Scalar → StoreBuffer Span Scalar)
      (step : StoreBuffer Span Scalar → Outcome (StoreBuffer Span Scalar))
      (buffers : StoreBufferAlloc Span Scalar)
      → ((b : StoreBuffer Span Scalar) → step b ≡ ret (f b))
      → IsSorted buffers
      → 0 < range.size
      → end range < u64_mod
      → (after : StoreBufferAlloc Span Scalar) × (update_buffer range init step buffers ≡ ret after)
        × Updated range init f buffers after
  unfolding update_buffer
  update_buffer-Updated range init f step buffers e h p b =
      let m =
        returned (BufferSpec range init buffers) (get_or_create_store_buffer_mut range init buffers)
          (get_or_create_store_buffer_mut_lem range init buffers h p b) in
      (
        set_object (BufferMut.position (m.0)) (f (BufferMut.buffer (m.0)))
            (BufferMut.buffers (m.0)),
        rw (m.1, e (BufferMut.buffer (m.0))) refl,
        set-Updated range init f buffers (m.0) p (m.2),
      )

  read_latest-eq :
      (active : ℕ) (g : GlobalState Span) (is_seqcst : Bool) (index : ℕ)
      (clocks : ThreadClockSet Span)
      → thread_index g active ≡ ret index
      → clocks_at g index ≡ ret clocks
      → (b : StoreBuffer Span Scalar)
      → read_latest active g is_seqcst b ≡ ret (read_from_last_store index clocks is_seqcst b)
  unfolding read_latest read_from_last_store
  read_latest-eq active g is_seqcst index clocks p q [] = refl
  read_latest-eq active g is_seqcst index clocks p q (e ∷ b) = rw (p, q) refl

  write_latest-eq :
      (val : Scalar) (active : ℕ) (g : GlobalState Span) (is_seqcst : Bool) (sync : VClock Span)
      (index : ℕ) (clocks : ThreadClockSet Span)
      → thread_index g active ≡ ret index
      → clocks_at g index ≡ ret clocks
      → (b : StoreBuffer Span Scalar)
      → write_latest val active g is_seqcst sync b
        ≡ ret (buffered_write val index clocks is_seqcst sync b)
  unfolding write_latest
  write_latest-eq val active g is_seqcst sync index clocks p q b = rw (p, q) refl

  -- An atomic read-modify-write of a range that is not empty and ends within 64 bits, where the
  -- synchronization clock of the range is found and the running thread has an index and clocks after
  -- the steps for a sequentially consistent access, does not panic. It keeps the buffers in order
  -- and leaves those alone that share no byte with the range. Its buffer is the one that was at the
  -- range, or else a new one with the initial value, in which the thread has read the latest store and
  -- stored the new value directly after it.
  pub buffered_atomic_rmw_lem :
      (new_val : Scalar) (range : AllocRange) (atomic : AtomicRwOrd) (init : Scalar) (active : ℕ)
      (g g1 g2 : GlobalState Span) (ranges : Ranges Span) (sync : VClock Span) (index : ℕ)
      (clocks : ThreadClockSet Span) (buffers : StoreBufferAlloc Span Scalar)
      → IsSorted buffers
      → 0 < range.size
      → end range < u64_mod
      → sync_clock ranges range.start range.size ≡ ret sync
      → (if rmw_seq_cst atomic then sc_read active g else ret g) ≡ ret g1
      → (if rmw_seq_cst atomic then sc_write active g1 else ret g1) ≡ ret g2
      → thread_index g2 active ≡ ret index
      → clocks_at g2 index ≡ ret clocks
      → (after : StoreBufferAlloc Span Scalar) × (buffered_atomic_rmw new_val range atomic init
            active
            (vclocks g, alloc_vclocks ranges (some buffers))
          ≡ ret (vclocks g2, alloc_vclocks ranges (some after)))
        × Updated range
            (some init)
            (λ b.
              buffered_write new_val index clocks
                (rmw_seq_cst atomic)
                sync
                (read_from_last_store index clocks (rmw_seq_cst atomic) b))
            buffers
            after
  unfolding buffered_atomic_rmw
  buffered_atomic_rmw_lem new_val range atomic init active g g1 g2 ranges sync index clocks buffers
        h p b c sc1 sc2 t q =
      let is_seqcst = rmw_seq_cst atomic in
      let step : StoreBuffer Span Scalar → Outcome (StoreBuffer Span Scalar) =
        λ l. read_latest active g2 is_seqcst l >>= write_latest new_val active g2 is_seqcst sync in
      let f : StoreBuffer Span Scalar → StoreBuffer Span Scalar = λ l.
        buffered_write new_val index clocks is_seqcst sync
          (read_from_last_store index clocks is_seqcst l) in
      let r =
        update_buffer-Updated range (some init) f step buffers
          (λ l.
            ap (λ o. o >>= write_latest new_val active g2 is_seqcst sync)
              (read_latest-eq active g2 is_seqcst index clocks t q l)
            ∙ write_latest-eq new_val active g2 is_seqcst sync index clocks t q
                (read_from_last_store index clocks is_seqcst l))
          h p b in
      (r.0, rw (sc1, sc2, c, r.1) refl, r.2)

  -- An atomic write of a range that is not empty and ends within 64 bits, where the synchronization
  -- clock of the range is found and the running thread has an index and clocks after the step for a
  -- sequentially consistent write, does not panic. It keeps the buffers in order and leaves those
  -- alone that share no byte with the range. Its buffer is the one that was at the range, or else a
  -- new one with the initial value, with a store of the thread.
  pub buffered_atomic_write_lem :
      (val : Scalar) (range : AllocRange) (atomic : AtomicWriteOrd) (init : Option Scalar)
      (active : ℕ) (g g1 : GlobalState Span) (ranges : Ranges Span) (sync : VClock Span) (index : ℕ)
      (clocks : ThreadClockSet Span) (buffers : StoreBufferAlloc Span Scalar)
      → IsSorted buffers
      → 0 < range.size
      → end range < u64_mod
      → sync_clock ranges range.start range.size ≡ ret sync
      → (if write_seq_cst atomic then sc_write active g else ret g) ≡ ret g1
      → thread_index g1 active ≡ ret index
      → clocks_at g1 index ≡ ret clocks
      → (after : StoreBufferAlloc Span Scalar) × (buffered_atomic_write val range atomic init active
            (vclocks g, alloc_vclocks ranges (some buffers))
          ≡ ret (vclocks g1, alloc_vclocks ranges (some after)))
        × Updated range init
            (buffered_write val index clocks (write_seq_cst atomic) sync)
            buffers
            after
  unfolding buffered_atomic_write
  buffered_atomic_write_lem val range atomic init active g g1 ranges sync index clocks buffers h p b
        c sc t q =
      let is_seqcst = write_seq_cst atomic in
      let r =
        update_buffer-Updated range init (buffered_write val index clocks is_seqcst sync)
          (write_latest val active g1 is_seqcst sync) buffers
          (write_latest-eq val active g1 is_seqcst sync index clocks t q) h p b in
      (r.0, rw (sc, c, r.1) refl, r.2)
