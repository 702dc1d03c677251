-- ===== src/PolicyStore.antt =====
-- pkg/policystore: generations of access policies on disk, and the pointer that selects one.
pub mod Disk
pub mod Load
pub mod Activate
pub mod Effects
pub mod Reading
pub mod Published
pub mod Controller
pub mod Served
