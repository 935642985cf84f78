-- ===== src/OAuth.antt =====
-- The OAuth server: scopes, and the token endpoints.
pub mod Scopes
pub mod Store
pub mod Connections
pub mod Overlap
pub mod Flow
mod Tests
