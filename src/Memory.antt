-- ===== src/Memory.antt =====
-- kernel/memory: physical pages, the objects made of them, and virtual address spaces.
pub mod Space
pub mod Buddy
pub mod Region
pub mod Object
pub mod Fork
pub mod Pagefault
