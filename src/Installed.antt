-- ===== src/Installed.antt =====
-- src/installed.rs: the webhook that a machine calls when it is installed.
pub mod Token
pub mod Claims
