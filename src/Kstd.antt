-- ===== src/Kstd.antt =====
-- kernel/kstd: the kernel's containers.
pub mod Map
pub mod CircularQueue
pub mod Bitmap
