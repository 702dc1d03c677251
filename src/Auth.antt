-- ===== src/Auth.antt =====
-- pkg/auth: capabilities, grants, principals, the grant store and the token middleware.
pub mod Capability
pub mod Grant
pub mod Store
pub mod Middleware
