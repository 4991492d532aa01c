-- ===== src/Lib.antt =====
-- A model of the batch verifier of the EraVM airbender guest and of the storage code around it.
--
-- The guest gets a witness with one Merkle path for every storage log of a batch. It reads the state
-- before the batch from the witness, runs the VM over it, and then proves the logs that the VM made
-- against the old root, entry by entry, up to a new root and a new enumeration index. It checks the
-- parts of the environment that the code pins, checks every bytecode against its hash, and commits to
-- what it proved. Around it stand the storage that the VM reads through, the deduplicator of its
-- writes, and the compression of state diffs for pubdata.
--
-- Files and code (paths from the repository's root):
--   Tree: crates/merkle_tree/src/types/mod.rs (Types), src/hasher/mod.rs (Hasher: the trait, padding
--     and folding a path; Blake2: the Blake2 hasher, the fused fold, the empty prefix) and
--     src/hasher/proofs.rs (Hasher: `verify_proofs`, `TreeEntryWithProof::verify`). Roots is the tree
--     that a root stands for, which the code never holds; Trim, Binding and Proofs are lemmas.
--   Witness: crates/merkle_tree/src/witness.rs (Defs); Normal and Legacy are about
--     `normalize_stored_paths`.
--   Storage: crates/types/src/storage (keys and logs).
--   Verifier: crates/airbender_verifier/src/merkle_witness.rs and lib.rs. Defs interprets a witness
--     entry, builds the storage view and maps a log; Streaming is `verify_paths_and_new_root` in its
--     two passes; Oracle is the path that it replaced; Accepts and Pass say when the passes accept;
--     Replay is the specification of a batch over a tree; Step, Soundness and Sound join the two, and
--     Prestate is about the storage view.
--   Commitment: crates/airbender_verifier/src/commitment.rs (Defs); Blobs is about the blob check.
--   Writes: crates/types/src/storage/writes (Compression, Diffs), a reader of the compressed values
--     (Decompression), and what the two do together.
--   Vm: crates/multivm/src/utils/deduplicator.rs (Dedup), crates/vm_interface/src/storage (Storage),
--     and crates/multivm/src/versions/vm_latest/old_vm/history_recorder.rs (History, History/Framed);
--     Rollback, Reversible, Steps and Manager below History are about rolling back.
--   Bytecode: crates/basic_types/src/bytecode.rs, and `verify_bytecode_hash` of the verifier; Binding,
--     Accepts and Padding are about the two.
--   Batch: crates/airbender_verifier/src/lib.rs from the input to the result. Version and Env are the
--     inputs (crates/airbender_verifier/src/types.rs, crates/vm_interface/src/types/inputs,
--     crates/basic_types/src/protocol_version.rs), Hashing the commitment
--     (crates/types/src/commitment/mod.rs), Machine the VM's interface, `execute_tx` and `execute_vm`,
--     Execute `execute`, and Verify `verify_commitment` and `Verify::verify`. Pins, Executed,
--     Transactions, Refinement, Settlement, Binding, Preimages, Committed and Sound are about them.
--   Tests: runs at concrete inputs.
--
-- A 256-bit word is the native number that its bytes stand for, a byte string a list of numbers.
-- A `u64` wraps where the release profile wraps, with the modulus written out, and so does a
-- `usize`, of 64 bits as on a host (the guest's has 32). The timestamps of a cycle are an
-- argument of the history recorder. Errors are `Outcome` values, panics its third case. The
-- Blake2 digest and its incremental state are arguments: they come from the proving system's
-- crypto crate; `FoldsDigest` is what the code relies on, that the incremental state computes the
-- digest of the same bytes. `bits` of `U256`, Keccak and the scalar field of the blobs are
-- arguments, too, as is SHA-256; `Primitives` holds that a field element is written in 32 bytes.
-- Hashes collide, so where a hash stands for its input the result names the two inputs, met at
-- one place of the run, that would have to differ under one hash. The VM is an argument, a record
-- of the operations that the verifier calls; what a theorem relies on is `RollsBack`, that a
-- rollback restores the state of its snapshot, and `FinishesInRange`, that its logs hold 256-bit
-- values. `chunks` and `bytes32_to_u32x8` count down the 4096 chunks of a blob and the 8 words of
-- a hash, the lengths that their inputs have; every other loop is over a list, or makes a given
-- number of bytes, hashes or slots.
--
-- Not modelled: what the VM does inside, whose execution is a dependency, and its tracers; the
-- tree's database; codecs and command lines. `deduplicate_logs` is left out, since it lists a hash
-- map in no order.
pub mod Common
pub mod Bytes
pub mod Tree
pub mod Witness
pub mod Storage
pub mod Verifier
pub mod Commitment
pub mod Writes
pub mod Vm
pub mod Bytecode
pub mod Batch
pub mod Tests
