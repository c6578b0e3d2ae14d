-- ===== src/Memory.antt =====
-- kernel/memory: the allocators.
pub mod PageFrame
pub mod Heap
pub mod VirtualMemory
