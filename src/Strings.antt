-- ===== src/Strings.antt =====
-- The functions of Rust's `str` that crates/whirl-core/src/protocol.rs takes lines apart with, on
-- texts as lists of bytes: the pieces between separators, prefixes and suffixes, and numbers.
pub mod Split
pub mod Strip
pub mod Number
