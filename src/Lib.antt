-- ===== src/Lib.antt =====
-- Miri: an interpreter that detects undefined behaviour of Rust programs. This library models parts
-- of its source that decide what is undefined behaviour, which addresses allocations get, and how
-- threads synchronize.
--
-- Parts, with the files that model them:
--
-- - Base, Base/*: Boolean tests on the native numbers, lists over them, and `Outcome`, the result of
--   code that may panic: a failed assertion, an arithmetic overflow or an index out of range.
-- - TreeBorrows: the aliasing model of src/borrow_tracker/tree_borrows. TreeBorrows/Perms is perms.rs,
--   the permissions of a tag at a location and their transitions; `Permission` only hides
--   `PermissionPriv` and is not told apart. TreeBorrows/Sifa is foreign_access_skipping.rs.
--   TreeBorrows/Location is `LocationState` of tree.rs with `perform_access`, `perform_transition` and
--   `skip_if_known_noop`. `WildcardAccessLevel` of wildcard.rs stands with the permissions.
-- - StackedBorrows: the aliasing model of src/borrow_tracker/stacked_borrows. StackedBorrows/Stack is
--   stack.rs: the stack of a location, its cache of 32 searches and its range of unique items.
-- - VectorClock: src/concurrency/vector_clock.rs. VectorClock/Timestamp is `VTimestamp`, with its 31
--   bits of time and one bit of read type in a 32-bit number, and VectorClock the clock, a list of
--   timestamps whose missing entries are zero. The compiler's spans are a parameter.
-- - AllocAddresses: src/alloc_addresses. AllocAddresses/Generator is address_generator.rs over 64-bit
--   addresses, AllocAddresses/Reuse is reuse_pool.rs. Random numbers are arguments.
-- - RangeObjectMap: src/data_structures/range_object_map.rs, objects at disjoint ranges in order.
-- - DedupRangeMap: src/data_structures/dedup_range_map.rs, the data of an allocation by ranges of its
--   bytes: searching, splitting, merging and mutable iteration. What two maps show is compared up to a
--   view of their data, since merging keeps either of two equal elements. DedupRangeMap/Scan to
--   DedupRangeMap/ScanLoop are about the loop of `iter_mut`.
-- - Clock: src/clock.rs, instants and the virtual clock, over 128-bit nanoseconds.
-- - Sync: src/concurrency. Sync/Mutex and Sync/RwLock are the mutex and the read-write lock of sync.rs,
--   and Sync/InitOnce is init_once.rs with the callbacks of src/shims/windows/sync.rs. All are over
--   Sync/Threads (thread.rs and data_race.rs: who is blocked, and each thread's clock) and Sync/Clocks,
--   an interface of clocks that VectorClock implements. Waking a thread runs the callback that the
--   object gave when it blocked the thread, in the same step, as `unblock_thread` does.
-- - DataRace: src/concurrency/data_race.rs, over VectorClock. DataRace/Cell is the state of a memory
--   cell and of a thread, DataRace/Checks the methods of `MemoryCellClocks` with the choice by ordering
--   of `validate_atomic_load`, `validate_atomic_store` and `validate_atomic_rmw`. DataRace/History is
--   the history of accesses that a cell's clocks stand for, and DataRace/Operations a run of accesses.
--   `atomic_access` has all its branches; histories and runs are those of atomic accesses of one size.
--   DataRace/Threads and DataRace/Creation are `GlobalState`, with the order in which its hash set is
--   walked as an argument, and DataRace/Epochs says which times of a thread others may have.
--   DataRace/Ranges is `VClockAlloc`, cells by ranges over DedupRangeMap, with its non-atomic accesses
--   and `sync_clock`; DataRace/CellEq is the equality that `MemoryCellClocks` derives, and
--   DataRace/RangeOperations a run of accesses of ranges.
-- - WeakMemory: src/concurrency/weak_memory.rs. WeakMemory is `StoreBuffer`, with the newest store
--   first, WeakMemory/Buffers is `StoreBufferAlloc`, over RangeObjectMap, and WeakMemory/Atomics the
--   accesses of the running thread, over DataRace, with the handlers of data_race_handler.rs. The
--   random choice of a load and the race check of a load are arguments. A hash map is a list of
--   entries.
--
-- The tags, threads and allocations of the interpreted program are numbers. A Rust method that
-- changes its receiver gives the new value. Loops over collections are recursion on lists. The one
-- loop on fuel is the scan of `DedupRangeMap::iter_mut`: its fuel is the length of the map, and each
-- round moves on by an element or removes one, so it is enough. The binary searches of the standard
-- library are written out as their documented results.
--
-- Not modelled: the tree of tags and its traversal (tree.rs), the accesses of Stacked Borrows, the
-- removal of items from its stacks and the packing of an item in 64 bits, the loop of the data-race
-- detector over the cells of an atomic access, the entry points of an atomic load in weak_memory.rs,
-- GenMC, scheduling and its deadlines, condition variables and futexes, the map from addresses to
-- allocations, and the shims, most of which read and write memory through the compiler's interpreter.
-- What a woken thread writes to the memory of its program is left out, as are texts of errors.
mod Base
pub mod TreeBorrows
pub mod VectorClock
pub mod AllocAddresses
pub mod RangeObjectMap
pub mod DataRace
pub mod StackedBorrows
pub mod Clock
pub mod Sync
pub mod DedupRangeMap
pub mod WeakMemory
