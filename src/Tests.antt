-- ===== src/Tests.antt =====
-- Runs of the model at concrete inputs.
pub mod Translation
pub mod Resolution
pub mod Execution
pub mod Instances
pub mod Instructions
pub mod Scheduling
pub mod Graphs
pub mod Components
pub mod Runs
pub mod Records
pub mod Workers
pub mod Runners
pub mod Network
pub mod Peers
