-- ===== src/Exec.antt =====
-- crates/ts-exec/src/lib.rs
pub mod Capture
pub mod Wait
pub mod Policy
pub mod Engine
