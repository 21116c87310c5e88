-- ===== src/Compress.antt =====
-- crates/ts-compress/src/lib.rs
pub mod Lines
pub mod Terminal
pub mod Ranges
pub mod Extract
pub mod Artifacts
