-- ===== src/Container.antt =====
-- crates/orisyvra/src/container.rs: the authenticated file container.
pub mod Header
pub mod Keys
pub mod Record
pub mod Guard
pub mod Manifest
pub mod Encrypt
pub mod Decrypt
pub mod RoundTrip
pub mod Files
mod Tests
