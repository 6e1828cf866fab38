-- ===== src/Boot.antt =====
-- src/boot: handing over a loader, and everything that is fetched after it.
pub mod Tftp
pub mod Media
pub mod Cpio
pub mod Sha256
pub mod Iso
pub mod Patch
