-- ===== src/Boot/Tftp.antt =====
-- src/boot/tftp.rs: the read-only TFTP server.
pub mod Packet
pub mod Request
pub mod Options
pub mod Ack
pub mod Transfer
pub mod Admission
pub mod Path
