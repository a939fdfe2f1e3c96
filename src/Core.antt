-- ===== src/Core.antt =====
-- crates/orisyvra-core: the permutation and the keyed sponge built on it.
pub mod Constants
pub mod Permutation
pub mod Prf
pub mod Tests
