-- ===== src/Tasking.antt =====
-- kernel/tasking: the mutex.
pub mod Mutex
