-- ===== src/Verifier/Oracle.antt =====
-- The path that the streaming pass replaced, kept as its test oracle: `get_bowp` of
-- merkle_witness.rs, `generate_tree_instructions` of lib.rs, `verify_proofs`, and the test's
-- `reference`, which joins them.
use eravm_airbender_verifier.Common.{
  ℕ, suc, ◌+◌, ◌%◌, ◌^◌, Bool, true, false, ◌&&◌, Option, none, some, List, [], ◌∷◌, length, ◌==◌,
  if◌then◌else◌, Outcome, ok, err, ensure, ◌>>=◌, ◌>>◌, count_mismatch, key_mismatch,
  root_hash_unavailable,
}
use eravm_airbender_verifier.Tree.Types.{
  ValueHash, TreeInstruction, TreeLogEntry, TreeLogEntryWithProof, BlockOutputWithProofs,
  output_root_hash,
}
use eravm_airbender_verifier.Tree.Hasher.{verify_proofs}
use eravm_airbender_verifier.Tree.Blake2.{Blake2s, blake2_hasher}
use eravm_airbender_verifier.Witness.Defs.{
  StorageLogMetadata, WitnessInputMerklePaths, into_merkle_paths,
}
use eravm_airbender_verifier.Storage.Log.{StorageLog, hashed_key_u256}
use eravm_airbender_verifier.Verifier.Defs.{tree_log_entry_from_witness, map_log_tree}

unfoldable pub proof_of : StorageLogMetadata → TreeLogEntry → TreeLogEntryWithProof
proof_of log base = record {
  base = base;
  merkle_path = log.merkle_paths;
  root_hash = log.root_hash;
}

unfoldable pub bowp_entries :
    List StorageLogMetadata → Outcome (List TreeLogEntryWithProof × List ℕ)
unfolding proof_of
bowp_entries [] = ok ([], [])
bowp_entries (log ∷ logs) = do
  base ← tree_log_entry_from_witness log
  (ops, keys) ← bowp_entries logs
  ok (proof_of log base ∷ ops, log.leaf_hashed_key ∷ keys)

abbrev pub is_inserted : TreeLogEntry → Bool
is_inserted TreeLogEntry.inserted = true
is_inserted _ = false

unfoldable pub num_insertions : List TreeLogEntryWithProof → ℕ
num_insertions [] = 0
num_insertions (op ∷ ops) =
    let rest = num_insertions ops in if is_inserted op.base then suc rest else rest

-- `context` on the root of the last operation
abbrev pub with_root : Option ValueHash → ℕ → Outcome (ValueHash × ℕ)
with_root none idx = err root_hash_unavailable
with_root (some root) idx = ok (root, idx)

module _ (blake2s : Blake2s) where
  unfoldable pub get_bowp : WitnessInputMerklePaths → Outcome (BlockOutputWithProofs × List ℕ)
  unfolding bowp_entries
  get_bowp witness = do
    (logs, leaf_keys) ← bowp_entries (into_merkle_paths (blake2_hasher blake2s) witness)
    ok (record { logs = logs; leaf_count = 0 }, leaf_keys)

  -- The closure of `generate_tree_instructions`.
  unfoldable pub bind_and_map :
      StorageLog → TreeLogEntryWithProof → ℕ → ℕ → Outcome (TreeInstruction × ℕ)
  unfolding hashed_key_u256
  bind_and_map log op leaf_key idx =
      let vm_key = hashed_key_u256 blake2s log.key in
      ensure (leaf_key == vm_key) key_mismatch >> map_log_tree vm_key log op.base idx

  unfoldable pub generate_all :
      ℕ → List TreeLogEntryWithProof → List ℕ → List StorageLog → Outcome (List TreeInstruction)
  unfolding bind_and_map
  generate_all idx (op ∷ ops) (key ∷ keys) (log ∷ logs) = do
    (instruction, next) ← bind_and_map log op key idx
    rest ← generate_all next ops keys logs
    ok (instruction ∷ rest)
  generate_all idx _ _ _ = ok []

  unfoldable pub generate_tree_instructions :
      ℕ → BlockOutputWithProofs → List ℕ → List StorageLog → Outcome (List TreeInstruction)
  unfolding generate_all
  generate_tree_instructions idx bowp leaf_keys vm_logs = do
    ensure (length vm_logs == length bowp.logs && length bowp.logs == length leaf_keys)
        count_mismatch
    generate_all idx bowp.logs leaf_keys vm_logs

  unfoldable pub reference :
      WitnessInputMerklePaths → List StorageLog → ValueHash → ℕ → Outcome (ValueHash × ℕ)
  unfolding get_bowp generate_tree_instructions num_insertions
  reference witness vm_logs old_root idx = do
    (bowp, leaf_keys) ← get_bowp witness
    instructions ← generate_tree_instructions idx bowp leaf_keys vm_logs
    verify_proofs (blake2_hasher blake2s) bowp old_root instructions
    with_root (output_root_hash bowp) ((idx + num_insertions bowp.logs) % 2 ^ 64)
