-- ===== src/Server.antt =====
-- The package internal/server.
pub mod Errors
pub mod ProbeProcessor
pub mod RateLimiter
pub mod ClientIp
pub mod AuthProcessor
