-- ===== src/Release.antt =====
-- src/server/services/connect_service_release_resolver.ts: which release of the service an executor
-- is offered.
pub mod Version
pub mod Index
pub mod Resolver
pub mod Carets
pub mod Choice
pub mod Policy
mod Offer
mod Tests
