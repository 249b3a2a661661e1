-- ===== src/Memory/Paging.antt =====
-- kernel/memory/paging.c: the four levels of page tables and the regions of the kernel's virtual
-- heap, over the pages of kernel/memory/physical_mm.c.
pub mod Tables
pub mod Walk
pub mod Tree
pub mod Pages
pub mod Link
pub mod Ensure
pub mod Lookup
pub mod Mapping
pub mod Huge
pub mod Addresses
pub mod Virtual
pub mod Ranges
pub mod Regions
pub mod Allocation
mod Tests
