-- ===== src/Protocol/Record.antt =====
-- The records that data lines carry: `set:` and `plan:`, and the worker's `set:` and `prefetch:`.
pub mod Set
pub mod Worker
pub mod Plan
