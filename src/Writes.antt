-- ===== src/Writes.antt =====
-- crates/types/src/storage/writes: the compression of storage writes for pubdata.
pub mod Compression
pub mod Decompression
pub mod Roundtrip
pub mod Shortest
pub mod Optimal
pub mod Diffs
pub mod Record
pub mod Bounds
