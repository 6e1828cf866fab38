-- ===== src/Select/Build.antt =====
-- `build` of src/select.rs: from the store's snapshot to the listing that requests are answered
-- from. Problems are appended in the order in which the code pushes them.
pub mod Chain
pub mod Groups
pub mod Machines
pub mod Whole
