-- ===== src/Vocabulary.antt =====
-- The closed vocabularies of crates/whirl-core/src/protocol.rs, a module each: a type, its names, and
-- the parser that looks a name up among all of them.
pub mod Via
pub mod Kind
pub mod ErrorCode
