-- ===== src/DataRace.antt =====
-- src/concurrency/data_race.rs: the clocks of one memory cell, by which accesses that are not ordered
-- are detected, and those of all threads. A method gives the state after it. An error ends the
-- interpreted program, so what the source has changed before it returns one is dropped.
pub mod Orderings
pub mod Cell
pub mod CellEq
mod Seen
pub mod Ranges
mod Keeps
pub mod RangeLoop
pub mod RangeAccess
pub mod RangeOperations
pub mod RangeCheck
pub mod RangeRun
pub mod RangeClock
pub mod Checks
pub mod History
mod Clocks
pub mod Detect
pub mod Write
mod Parts
pub mod Atomic
pub mod Operations
pub mod Run
pub mod Rmw
pub mod Threads
pub mod Epochs
pub mod Synchronize
pub mod Fences
pub mod Joining
pub mod Creation
pub mod Created
pub mod Reuse
pub mod Initial
mod Tests
mod ThreadTests
mod RangeTests
