-- ===== src/Witness.antt =====
-- crates/merkle_tree/src/witness.rs: what a batch's witness stores of its Merkle paths.
pub mod Defs
pub mod Normal
pub mod Legacy
