-- ===== src/Heap.antt =====
-- sys/kheap.c: the kernel heap.
pub mod Find
pub mod Resize
pub mod Alloc
pub mod Free
pub mod Kmalloc
pub mod Smallest
pub mod Split
pub mod Serve
pub mod Request
pub mod Block
pub mod Placement
pub mod Release
pub mod Freed
mod Tests
