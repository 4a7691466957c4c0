-- ===== src/Alert.antt =====
-- The package internal/alert.
pub mod Payload
pub mod Sender
