-- ===== src/Schema.antt =====
-- pkg/schema/schema.go: schema modes, declared fields and the validation of records.
pub mod Values
pub mod Decimals
pub mod Declarations
pub mod Records
