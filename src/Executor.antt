-- ===== src/Executor.antt =====
-- Executors, their claims and their owners: src/server/services/connect_executor_service.ts.
pub mod Rows
pub mod Store
pub mod Flows
pub mod Claims
pub mod Decisions
pub mod Owners
mod Operations
mod Later
mod Keeping
mod Keepers
mod Holding
pub mod Promises
mod Quiet
mod Rollback
mod Ending
mod Granting
mod Tests
