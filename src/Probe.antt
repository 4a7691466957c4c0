-- ===== src/Probe.antt =====
-- cmd/wacht-probe and the client that it uploads with.
pub mod Api
pub mod Batcher
pub mod Scheduler
