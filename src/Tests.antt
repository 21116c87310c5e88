-- ===== src/Tests.antt =====
-- Runs of the model at concrete inputs, and the theorems at inputs that meet their hypotheses.
mod Context
mod Selecting
mod Routing
mod Formatting
mod Identifiers
mod Messages
mod Execution
mod Providers
mod Compression
mod Memories
mod Events
mod Updates
mod Repository
mod Scanning
mod Artifacts
mod Service
