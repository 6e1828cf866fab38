-- ===== src/Tests.antt =====
-- The theorems at concrete inputs.
mod Matching
mod Transfers
mod Stores
mod Files
mod Images
