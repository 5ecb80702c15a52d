-- ===== src/AllocAddresses.antt =====
-- src/alloc_addresses: where allocations get their addresses from.
pub mod Generator
pub mod Reuse
