-- ===== src/License.antt =====
-- pkg/license: declared terms of source data, and the inventory of a response.
pub mod Declaration
pub mod Rights
