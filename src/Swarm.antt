-- ===== src/Swarm.antt =====
-- src/server/durable-objects.ts, class SwarmMachineCoordinator: one durable object per swarm machine.
pub mod State
pub mod Machine
pub mod Replay
pub mod Paging
mod Tests
