-- ===== src/Orchestration.antt =====
-- src/orchestration: the main Agent's state machine, worker contract, memory and runner.
pub mod States
pub mod Types
pub mod Contract
pub mod Memory
pub mod Runner
pub mod Adapters
pub mod Planning
pub mod Session
