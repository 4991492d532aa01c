-- ===== src/Batch.antt =====
-- crates/airbender_verifier/src/lib.rs and types.rs, and what a batch is made of: the guest from its input
-- to its public input.
pub mod Version
pub mod Hashing
pub mod Env
pub mod Machine
pub mod Execute
pub mod Pins
pub mod Executed
pub mod Verify
pub mod Transactions
pub mod Refinement
pub mod Settlement
pub mod Binding
pub mod Preimages
pub mod Committed
pub mod Sound
