-- ===== src/Facts.antt =====
-- src/facts.rs: what a request tells about the machine that sends it.
pub mod Glob
pub mod Query
pub mod Labels
pub mod Request
