-- ===== src/Sync.antt =====
-- The locks of 08.kernel-mm/kernel/sync: spinlock.c and yieldlock.c, over `atomic_exchange` of
-- sync/lock.S.
pub mod Locks
pub mod Threads
