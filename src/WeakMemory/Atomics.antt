-- ===== src/WeakMemory/Atomics.antt =====
-- weak_memory.rs and data_race_handler.rs: the atomic accesses of the running thread that go through
-- the store buffers of an allocation. What the interpreter finds for a place, the allocation's
-- handler and the range, are arguments, and `active` is the running thread.
use miri.Base.{
  ℕ, Bool, true, false, if◌then◌else◌, Option, some, List, [], ◌∷◌, zero, suc, Outcome, ret, ◌>>=◌,
}
use miri.VectorClock.Timestamp.{Spans}
use miri.VectorClock.{VClock}
use miri.RangeObjectMap.{AllocRange, Elem}
use miri.DataRace.Orderings.{AtomicRwOrd, AtomicReadOrd, AtomicWriteOrd}
use miri.DataRace.Ranges.{Ranges, sync_clock}
use miri.DataRace.Threads.{GlobalState, thread_index, clocks_at, sc_write, sc_read}
use miri.WeakMemory.{StoreBuffer, read_from_last_store, buffered_write}
use miri.WeakMemory.Buffers.{StoreBufferAlloc, BufferMut, get_or_create_store_buffer_mut}

-- `AllocDataRaceHandler` and `GlobalDataRaceHandler`, whose GenMC state is not modelled
pub data AllocDataRaceHandler (Span Scalar : Type 0) : Type 0 where
  no_alloc_detection alloc_genmc : AllocDataRaceHandler Span Scalar
  alloc_vclocks :
      Ranges Span → Option (StoreBufferAlloc Span Scalar) → AllocDataRaceHandler Span Scalar

pub data GlobalDataRaceHandler (Span : Type 0) : Type 0 where
  no_detection genmc : GlobalDataRaceHandler Span
  vclocks : GlobalState Span → GlobalDataRaceHandler Span

-- the state that an access changes
abbrev pub Handlers : Type 0 → Type 0 → Type 0
Handlers Span Scalar = GlobalDataRaceHandler Span × AllocDataRaceHandler Span Scalar

-- an assignment through `&mut buffers[pos]`
abbrev pub set_object : {T : Type 0} → ℕ → T → List (Elem T) → List (Elem T)
set_object pos x [] = []
set_object zero x (e ∷ v) = record e { object = x } ∷ v
set_object (suc pos) x (e ∷ v) = e ∷ set_object pos x v

abbrev pub rmw_seq_cst : AtomicRwOrd → Bool
rmw_seq_cst AtomicRwOrd.seq_cst = true
rmw_seq_cst _ = false

abbrev pub read_seq_cst : AtomicReadOrd → Bool
read_seq_cst AtomicReadOrd.seq_cst = true
read_seq_cst _ = false

abbrev pub write_seq_cst : AtomicWriteOrd → Bool
write_seq_cst AtomicWriteOrd.seq_cst = true
write_seq_cst _ = false

module _ {Span Scalar : Type 0} ⦃s : Spans Span⦄ where
  -- `buffer.read_from_last_store` with the clocks of the running thread
  unfoldable pub read_latest :
      ℕ → GlobalState Span → Bool → StoreBuffer Span Scalar → Outcome (StoreBuffer Span Scalar)
  unfolding read_from_last_store
  read_latest active g is_seqcst [] = ret []
  read_latest active g is_seqcst (e ∷ b) = do
    index ← thread_index g active
    clocks ← clocks_at g index
    ret (read_from_last_store index clocks is_seqcst (e ∷ b))

  -- `buffer.buffered_write`, likewise
  unfoldable pub write_latest :
      Scalar
      → ℕ
      → GlobalState Span
      → Bool
      → VClock Span
      → StoreBuffer Span Scalar
      → Outcome (StoreBuffer Span Scalar)
  unfolding buffered_write
  write_latest val active g is_seqcst sync b = do
    index ← thread_index g active
    clocks ← clocks_at g index
    ret (buffered_write val index clocks is_seqcst sync b)

  -- an operation on the buffer at the range, which is made if there is none
  unfoldable pub update_buffer :
      AllocRange
      → Option Scalar
      → (StoreBuffer Span Scalar → Outcome (StoreBuffer Span Scalar))
      → StoreBufferAlloc Span Scalar
      → Outcome (StoreBufferAlloc Span Scalar)
  unfolding get_or_create_store_buffer_mut
  update_buffer range init f buffers = do
    m ← get_or_create_store_buffer_mut range init buffers
    c ← f (BufferMut.buffer m)
    ret (set_object (BufferMut.position m) c (BufferMut.buffers m))

  unfoldable pub buffered_atomic_rmw :
      Scalar
      → AllocRange
      → AtomicRwOrd
      → Scalar
      → ℕ
      → Handlers Span Scalar
      → Outcome (Handlers Span Scalar)
  unfolding sc_read sc_write sync_clock update_buffer read_latest write_latest
  buffered_atomic_rmw new_val range atomic init active
        (vclocks g, alloc_vclocks clocks (some buffers)) =
      do
        g1 ← if rmw_seq_cst atomic then sc_read active g else ret g
        g2 ← if rmw_seq_cst atomic then sc_write active g1 else ret g1
        sync ← sync_clock clocks range.start range.size
        after ←
            update_buffer range (some init)
              (λ b.
                read_latest active g2 (rmw_seq_cst atomic) b
                >>= write_latest new_val active g2 (rmw_seq_cst atomic) sync)
              buffers
        ret (vclocks g2, alloc_vclocks clocks (some after))
  buffered_atomic_rmw new_val range atomic init active h = ret h

  unfoldable pub buffered_atomic_write :
      Scalar
      → AllocRange
      → AtomicWriteOrd
      → Option Scalar
      → ℕ
      → Handlers Span Scalar
      → Outcome (Handlers Span Scalar)
  unfolding sc_write sync_clock update_buffer write_latest
  buffered_atomic_write val range atomic init active
        (vclocks g, alloc_vclocks clocks (some buffers)) =
      do
        g' ← if write_seq_cst atomic then sc_write active g else ret g
        sync ← sync_clock clocks range.start range.size
        after ←
            update_buffer range init (write_latest val active g' (write_seq_cst atomic) sync)
              buffers
        ret (vclocks g', alloc_vclocks clocks (some after))
  buffered_atomic_write val range atomic init active h = ret h
