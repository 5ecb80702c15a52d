-- ===== src/WeakMemory/Tests.antt =====
-- Runs of the store buffer at concrete stores and loads.
use miri.Base.{
  ℕ, ◌+◌, ◌==◌, if◌then◌else◌, refl, some, [], ◌∷◌, arith, ◌≡◌, true, false, length, Returns, ret,
  ◌≤◌, ◌<◌, subst, get_elem?, set_elem,
}
use mathlib.Core.Option.{some-injective}
use miri.VectorClock.Timestamp.{Spans, VTimestamp}
use miri.VectorClock.{VClock, at}
use miri.DataRace.Orderings.{Checked, ok}
use miri.DataRace.Cell.{ThreadClockSet}
use miri.DataRace.History.{tm}
use miri.WeakMemory.{
  LoadRecency, StoreElement, load_impl, new_store, StoreBuffer, Loaded, new, buffered_write,
  buffered_read, fetch_store,
}
use miri.WeakMemory.Fetch.{Allowed, fetch_store_lem}
use miri.WeakMemory.Read.{ok-injective}
use miri.WeakMemory.Coherence.{LoadsUpTo}
use miri.DataRace.Cell.{cell_new}
use miri.DataRace.Orderings.{AtomicRwOrd, AtomicWriteOrd}
use miri.DataRace.Ranges.{Ranges, sync_clock}
use miri.DataRace.Threads.{GlobalState, global_new, default_clocks}
use miri.WeakMemory.{read_from_last_store}
use miri.WeakMemory.Atomics.{alloc_vclocks, vclocks, buffered_atomic_rmw, buffered_atomic_write}
use miri.WeakMemory.Updating.{Updated, buffered_atomic_rmw_lem, buffered_atomic_write_lem}
use miri.RangeObjectMap.{AllocRange}
use miri.RangeObjectMap.Search.{IsSorted}
use miri.RangeObjectMap.Remove.{kept}
use miri.WeakMemory.Buffers.{StoreBufferAlloc, non_atomic_write, get_or_create_store_buffer_mut}
use miri.WeakMemory.Objects.{BufferSpec, non_atomic_write_lem, get_or_create_store_buffer_mut_lem}
use miri.WeakMemory.Later.{Later, write_read_coherence, read_read_coherence}

instance abbrev number_spans : Spans ℕ
number_spans = record {
  dummy = 0;
  is_dummy = λ s. s == 0;
  substitute_dummy = λ s t. if s == 0 then t else s;
}

abbrev stamp : ℕ → VTimestamp ℕ
stamp t = record { time_and_read_type = t + t; span = 7 }

abbrev with_clock : VClock ℕ → ThreadClockSet ℕ
with_clock c = record {
  clock = c;
  fence_acquire = [];
  fence_release = [];
  write_seqcst = [];
  read_seqcst = [];
}

-- the thread that stores, one that has not seen its stores, and one that has seen the first
abbrev writer : ThreadClockSet ℕ
writer = with_clock (stamp 2 ∷ [])

abbrev writer_later : ThreadClockSet ℕ
writer_later = with_clock (stamp 3 ∷ [])

abbrev stranger : ThreadClockSet ℕ
stranger = with_clock (stamp 1 ∷ stamp 1 ∷ [])

abbrev reader : ThreadClockSet ℕ
reader = with_clock (stamp 2 ∷ stamp 1 ∷ [])

abbrev start : StoreBuffer ℕ ℕ
start = new (some 10)

abbrev one_store : StoreBuffer ℕ ℕ
one_store = buffered_write 11 0 writer false [] start

abbrev two_stores : StoreBuffer ℕ ℕ
two_stores = buffered_write 12 0 writer_later false [] one_store

-- the stranger may find any of the three stores, the reader two of them
stranger_oldest : fetch_store false stranger 2 two_stores ≡ ret 2
unfolding fetch_store buffered_write new at
stranger_oldest = refl

reader_first : fetch_store false reader 3 two_stores ≡ ret 1
unfolding fetch_store buffered_write new at
reader_first = refl

two_stores-nonempty : 0 < length two_stores
unfolding buffered_write new
two_stores-nonempty = omega arith

fetch_store_lem_example :
    ((r : ℕ)
      → Returns (fetch_store false stranger r two_stores) (Allowed false stranger two_stores))
    × ((k : ℕ)
        → Allowed false stranger two_stores k
        → (r : ℕ) × (fetch_store false stranger r two_stores ≡ ret k))
fetch_store_lem_example = fetch_store_lem false stranger two_stores two_stores-nonempty

second_store : Later one_store two_stores 1
second_store = Later.write 12 0 writer_later false [] (Later.none_between refl refl) refl refl

reader-knows : tm writer.clock 0 ≤ tm reader.clock 0
unfolding at
reader-knows = omega arith

write_read_coherence_example : Returns (fetch_store false reader 5 two_stores) (λ k. k ≤ 1)
write_read_coherence_example =
    write_read_coherence 11 0 writer false [] start two_stores 1 second_store false reader 5
      reader-knows

-- the reader finds the first store, and then the writer stores once more
abbrev first_store : StoreElement ℕ ℕ
first_store = new_store 11 0 writer.clock false []

abbrev loaded : Loaded ℕ ℕ
loaded = record {
  position = 1;
  value = some 11;
  recency = LoadRecency.outdated;
  buffer = set_elem two_stores 1 (load_impl 1 reader false first_store);
}

abbrev accept : VClock ℕ → Checked (ThreadClockSet ℕ)
accept c = ok reader

loaded_lem : buffered_read false 1 reader 3 accept two_stores ≡ ok loaded
unfolding buffered_read fetch_store buffered_write new at
loaded_lem = refl

abbrev three_stores : StoreBuffer ℕ ℕ
three_stores = buffered_write 13 0 writer_later true [] loaded.buffer

third_store : Later loaded.buffer three_stores 1
third_store = Later.write 13 0 writer_later true [] (Later.none_between refl refl) refl refl

no_loads_before :
    (e : StoreElement ℕ ℕ)
    → get_elem? two_stores loaded.position ≡ some e
    → LoadsUpTo 1 1 e.load_info.timestamps
unfolding buffered_write new
no_loads_before e g = subst (λ x. LoadsUpTo 1 1 x.load_info.timestamps) (some-injective _ _ g) tt

at_time :
    (sync_clock : VClock ℕ) (after : ThreadClockSet ℕ)
    → accept sync_clock ≡ ok after
    → tm after.clock 1 ≤ 1
unfolding at
at_time c after h =
    let e : reader ≡ after = ok-injective h in subst (λ x. tm x.clock 1 ≤ 1) e (omega arith)

reader-at_time : 1 ≤ tm reader.clock 1
unfolding at
reader-at_time = omega arith

read_read_coherence_example : Returns (fetch_store false reader 7 three_stores) (λ k. k ≤ 1 + 1)
read_read_coherence_example =
    read_read_coherence false 1 reader 3 accept two_stores loaded 1 three_stores 1
      two_stores-nonempty loaded_lem no_loads_before at_time third_store false reader 7
      reader-at_time

-- the store buffers of two atomic objects, and a range that overlaps with the second
abbrev objects : StoreBufferAlloc ℕ ℕ
objects =
    record { range = record { start = 0; size = 4 }; object = two_stores }
    ∷ record { range = record { start = 8; size = 4 }; object = one_store }
    ∷ []

abbrev across : AllocRange
across = record { start = 6; size = 4 }

objects-IsSorted : IsSorted objects
objects-IsSorted = (omega arith, (omega arith, tt), (omega arith, tt, tt))

non_atomic_write_example :
    (non_atomic_write false across objects ≡ ret (if false then objects else kept objects across))
    × IsSorted (if false then objects else kept objects across)
non_atomic_write_example =
    non_atomic_write_lem false across objects objects-IsSorted (omega arith) (omega arith)

get_or_create_example :
    Returns
      (get_or_create_store_buffer_mut across (some 20) objects)
      (BufferSpec across (some 20) objects)
get_or_create_example =
    get_or_create_store_buffer_mut_lem across (some 20) objects objects-IsSorted (omega arith)
      (omega arith)

-- an allocation of 16 bytes, and a program of one thread
abbrev cells : Ranges ℕ
cells = record { range = record { start = 0; end = 16 }; value = cell_new (stamp 1) 0 } ∷ []

abbrev one_thread : GlobalState ℕ
one_thread = global_new false true

cells-sync_clock : sync_clock cells 6 4 ≡ ret []
unfolding sync_clock
cells-sync_clock = refl

buffered_atomic_rmw_example :
    (after : StoreBufferAlloc ℕ ℕ) × (buffered_atomic_rmw 30 across AtomicRwOrd.acq_rel 20 0
        (vclocks one_thread, alloc_vclocks cells (some objects))
      ≡ ret (vclocks one_thread, alloc_vclocks cells (some after)))
    × Updated across
        (some 20)
        (λ b.
          buffered_write 30 0 default_clocks false []
            (read_from_last_store 0 default_clocks false b))
        objects
        after
unfolding global_new
buffered_atomic_rmw_example =
    buffered_atomic_rmw_lem 30 across AtomicRwOrd.acq_rel 20 0 one_thread one_thread one_thread
      cells [] 0 default_clocks objects objects-IsSorted (omega arith) (omega arith)
      cells-sync_clock refl refl refl refl

buffered_atomic_write_example :
    (after : StoreBufferAlloc ℕ ℕ) × (buffered_atomic_write 30 across AtomicWriteOrd.release
        (some 20)
        0
        (vclocks one_thread, alloc_vclocks cells (some objects))
      ≡ ret (vclocks one_thread, alloc_vclocks cells (some after)))
    × Updated across (some 20) (buffered_write 30 0 default_clocks false []) objects after
unfolding global_new
buffered_atomic_write_example =
    buffered_atomic_write_lem 30 across AtomicWriteOrd.release (some 20) 0 one_thread one_thread
      cells [] 0 default_clocks objects objects-IsSorted (omega arith) (omega arith)
      cells-sync_clock refl refl refl
