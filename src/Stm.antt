-- ===== src/Stm.antt =====
-- 353607/tm.c: the transactional memory. A transaction is private to its thread, so it is a value
-- that the operations take and return; `none` is a transaction that was aborted and freed.
pub mod Tx
pub mod Cleanup
pub mod Lifecycle
pub mod Read
pub mod Write
pub mod End
pub mod Alloc
pub mod Isolation
pub mod WriteSet
pub mod Session
pub mod Segments
pub mod Snapshot
pub mod Clock
pub mod Ownership
pub mod WaitFree
