-- ===== src/Tests.antt =====
-- Concrete runs of the server and of the probe.
mod Buffer
mod Data
mod Tables
mod Database
mod Requests
mod Accounts
mod Machines
mod Runs
mod Sweeps
mod Workers
