-- ===== src/Verifier.antt =====
-- crates/airbender_verifier: what the guest proves of a batch.
pub mod Defs
pub mod Streaming
pub mod Oracle
pub mod Accepts
pub mod Pass
pub mod Replay
pub mod Ranges
pub mod Step
pub mod Soundness
pub mod Sound
pub mod Prestate
