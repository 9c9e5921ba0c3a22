-- ===== src/Paging.antt =====
-- The Sv48 page tables of mmu/src: one module for the entries and addresses (sv48.rs), and one for
-- each group of operations of mmap.rs.
pub mod Entry
pub mod Pages
pub mod Walk
pub mod Mapping
pub mod Resolve
pub mod Tree
pub mod Spans
pub mod Maps
pub mod Refusals
pub mod Unmaps
pub mod Teardown
pub mod Ranges
pub mod Tests
