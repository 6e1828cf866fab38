-- ===== src/Store.antt =====
-- Where answer documents are kept (src/store).
pub mod File
pub mod Layout
pub mod Snapshot
pub mod Service
