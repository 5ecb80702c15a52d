-- ===== src/Sync.antt =====
-- src/concurrency/sync.rs and init_once.rs: the synchronization objects of the interpreted program,
-- over the threads of thread.rs and the clocks of data_race.rs.
pub mod Clocks
pub mod Threads
mod Queue
pub mod Mutex
pub mod InitOnce
pub mod RwLock
mod Tests
