-- ===== src/Relay.antt =====
-- src/server/services/connect_client_relay_service.ts: the relay between desktop clients and
-- executors.
pub mod State
pub mod Links
pub mod Source
pub mod Routing
pub mod Hub
pub mod Coherence
pub mod Sound
pub mod Entering
mod Settling
pub mod Steps
pub mod Promises
mod Clearing
mod Revocation
mod Admission
mod Tests
