-- ===== src/Tree.antt =====
-- crates/merkle_tree: the hashing side of the sparse Merkle tree.
pub mod Types
pub mod Hasher
pub mod Blake2
pub mod Trim
pub mod Roots
pub mod Binding
pub mod Proofs
