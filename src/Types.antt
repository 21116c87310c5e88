-- ===== src/Types.antt =====
-- crates/ts-types/src/lib.rs: the shared identifiers, protocol version, routing types and token
-- counts. Each child models one group of them.
pub mod RequestId
pub mod CounterId
pub mod Protocol
pub mod Route
pub mod Count
