-- ===== src/Core.antt =====
-- pkg/core: records addressed by keys, the names of collections, and the writes of a batch.
pub mod Key
pub mod Updates
pub mod Batch
pub mod Quoting
pub mod Collections
pub mod WriteGuard
