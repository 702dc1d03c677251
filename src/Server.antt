-- ===== src/Server.antt =====
-- pkg/server: the limits of relational queries, and cross-origin requests.
pub mod Gate
pub mod CacheControl
pub mod Cors
