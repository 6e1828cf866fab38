-- ===== src/Select.antt =====
-- src/select.rs: which answer a request gets, and how it is composed from its layers.
pub mod Docs
pub mod Listing
pub mod Score
pub mod Build
pub mod Resolve
pub mod Cache
