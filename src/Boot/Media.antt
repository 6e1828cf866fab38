-- ===== src/Boot/Media.antt =====
-- src/boot/media.rs: images and boot assets over HTTP, with ranges.
pub mod Route
pub mod Range
pub mod Cidr
pub mod Segments
