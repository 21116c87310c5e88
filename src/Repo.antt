-- ===== src/Repo.antt =====
-- crates/ts-repo/src/lib.rs, the parts that compute: the handles of files, the redaction of secrets, the scan with
-- its chunks and symbols, and the fetch by a handle.
pub mod Paths
pub mod Redaction
pub mod Chunks
pub mod Load
pub mod Files
pub mod Scan
pub mod Fetch
pub mod Symbols
