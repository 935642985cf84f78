-- ===== src/Coordinator.antt =====
-- src/server/durable-objects.ts, class ExecutorCoordinator: one durable object per executor.
pub mod State
pub mod Effects
pub mod Channel
pub mod Chunks
pub mod Session
pub mod Invoke
pub mod Routes
pub mod Handler
pub mod Keeps
pub mod Desk
pub mod Run
pub mod Tickets
pub mod Settlement
pub mod Total
pub mod Fences
pub mod Closing
pub mod Reassembly
pub mod Budgets
mod Tests
