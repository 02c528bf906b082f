-- ===== src/Protocol.antt =====
-- The control protocol of crates/whirl-core/src/protocol.rs: requests, responses, the records that
-- data lines carry, and the worker's lines.
pub mod Request
pub mod Parse
pub mod Response
pub mod Line
pub mod Record
