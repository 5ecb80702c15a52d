-- ===== src/TreeBorrows.antt =====
-- src/borrow_tracker/tree_borrows: the Tree Borrows aliasing model.
pub mod Perms
pub mod Sifa
pub mod Location
mod Tests
