-- ===== src/Envfile.antt =====
-- src/envfile.rs: reading an env file, and rewriting its text in place.
pub mod Parse
pub mod Rewrite
pub mod RoundTrip
