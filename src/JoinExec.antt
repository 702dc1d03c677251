-- ===== src/JoinExec.antt =====
-- pkg/joinexec: joined reads, from the inspection of a document to the guard of its rows.
pub mod Query
pub mod Names
pub mod Walker
pub mod Walk
pub mod Inspect
pub mod Aliases
pub mod Guard
