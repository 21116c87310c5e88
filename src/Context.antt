-- ===== src/Context.antt =====
-- crates/ts-context/src/lib.rs: context candidates, ranking, budgets and provenance.
pub mod SourceId
pub mod ContentHash
pub mod Relevance
pub mod Counter
pub mod Budget
pub mod Candidate
pub mod Bundle
pub mod Build
