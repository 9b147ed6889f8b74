-- ===== src/Tss.antt =====
-- tss/src: threshold signatures. The state machines around the cryptographic library `frost_evm`,
-- which is a parameter; identifiers of the library are read as numbers in its order.
pub mod Frost
pub mod Signer
pub mod Coordinator
pub mod Roast
pub mod Dkg
pub mod Machine
pub mod Actions
pub mod KeyGeneration
pub mod Ready
pub mod Tests
