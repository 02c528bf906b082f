-- ===== src/Pipeline.antt =====
-- The worker's pipeline of crates/whirl-worker/src/pipeline.rs: the filters on the candidates of a
-- source, and the order in which a rotation tries the sources.
pub mod Filter
pub mod Weights
pub mod Sniff
