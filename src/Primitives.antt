-- ===== src/Primitives.antt =====
-- The types of the primitives crate that the pallets share.
pub mod Bytes
pub mod Gmp
pub mod Cctp
pub mod Batch
pub mod Task
pub mod Tests
