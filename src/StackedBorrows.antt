-- ===== src/StackedBorrows.antt =====
-- src/borrow_tracker/stacked_borrows/stack.rs: the borrow stack of a location, with the cache of
-- searches that the feature `stack-cache` adds. An `Item` is what its accessors give, not the 64 bits
-- that item.rs packs it in, and the two parallel arrays of the cache are one list.
pub mod Stack
pub mod Valid
pub mod Search
pub mod Inserted
pub mod Growing
pub mod Disable
pub mod Disabled
pub mod Loop
pub mod Uniques
mod Tests
