-- ===== src/Memory.antt =====
-- src/memory: the block heap, the kernel's allocator and paging.
pub mod Page
pub mod Heap
pub mod KernelHeap
pub mod PointerArray
pub mod Words
pub mod Paging
mod Tests
