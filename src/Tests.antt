-- ===== src/Tests.antt =====
-- Runs of the modelled code at concrete inputs.
pub mod Schedule
pub mod Cache
pub mod Daemon
pub mod Ring
pub mod Sha256
pub mod Vocabulary
pub mod Protocol
pub mod Scheduler
pub mod Bus
pub mod Pipeline
pub mod Sniff
pub mod StateFile
pub mod Timestamp
pub mod Http
pub mod Json
