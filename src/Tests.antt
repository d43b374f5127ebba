-- ===== src/Tests.antt =====
-- Concrete runs: each applies a theorem at one device, one command and small texts.
mod Fixtures
mod Jobs
mod Sessions
mod Pairing
mod Logs
mod Requests
mod Inputs
mod Extension
mod Revisions
mod Network
