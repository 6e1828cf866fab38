-- ===== src/Admin.antt =====
-- src/admin.rs: the administration API.
pub mod Guard
pub mod Token
pub mod Reply
pub mod Write
