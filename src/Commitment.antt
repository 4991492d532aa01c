-- ===== src/Commitment.antt =====
-- crates/airbender_verifier/src/commitment.rs: what the guest commits to.
pub mod Defs
pub mod Blobs
pub mod Keccak
