-- ===== src/Store.antt =====
-- The package internal/store.
pub mod Writes
pub mod Tables
pub mod Connection
pub mod Notifications
pub mod Deliveries
pub mod CheckId
pub mod CheckRows
pub mod CheckStates
pub mod MonitoringWrites
pub mod Recovered
pub mod Probes
pub mod AccountRows
pub mod Accounts
