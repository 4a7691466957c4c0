-- ===== src/Monitoring.antt =====
-- The package internal/monitoring: the server's current view of probes, checks and incidents.
pub mod Types
pub mod Stateless
pub mod CheckMachine
pub mod ProbeMachine
pub mod Ids
pub mod QuorumMachine
pub mod Runtime
pub mod Heartbeat
pub mod Notice
pub mod Result
pub mod Batch
pub mod ProbeSweep
pub mod CheckSweep
pub mod Recovery
pub mod Reachable
