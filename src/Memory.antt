-- ===== src/Memory.antt =====
-- kernel/memory: physical pages, the kernel heap, the DMA pool and virtual memory.
pub mod Physical
pub mod Heap
pub mod Paging
pub mod Dma
