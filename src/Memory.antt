-- ===== src/Memory.antt =====
-- Physical memory: the page allocator, the memory interface over it, and the kernel's bump allocator.
pub mod Pages
pub mod Heap
pub mod Manager
