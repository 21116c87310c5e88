-- ===== src/Daemon.antt =====
-- crates/ts-daemon/src/lib.rs
pub mod Registry
pub mod Service
pub mod Connection
pub mod Terms
pub mod Baseline
