-- ===== src/Volume.antt =====
-- crates/orisyvra-volume/src/lib.rs: the encrypted block volume.
pub mod Layout
pub mod Device
pub mod Seals
pub mod Log
pub mod Blocks
pub mod Store
pub mod Tests
