-- ===== src/Verifier/Streaming.antt =====
-- crates/airbender_verifier/src/merkle_witness.rs: `verify_paths_and_new_root`, the two passes.
use eravm_airbender_verifier.Common.{
  ℕ, Bool, true, false, List, [], ◌∷◌, length, ◌==◌, leb, not, Outcome, ok, ensure, ◌>>=◌, ◌>>◌,
  count_mismatch, root_hash_unavailable, legacy_form, path_too_long, key_mismatch,
  prev_hash_mismatch, next_hash_mismatch,
}
use eravm_airbender_verifier.Tree.Types.{H256, ValueHash, tree_depth, TreeInstruction, TreeLogEntry}
use eravm_airbender_verifier.Tree.Hasher.{prev_entry, check_op_root}
use eravm_airbender_verifier.Tree.Blake2.{Blake2s, blake2_fold_merkle_path}
use eravm_airbender_verifier.Witness.Defs.{
  StorageLogMetadata, WitnessInputMerklePaths, is_legacy_first,
}
use eravm_airbender_verifier.Storage.Log.{StorageLog, hashed_key_u256}
use eravm_airbender_verifier.Verifier.Defs.{tree_log_entry_from_witness, map_log_tree}

abbrev pub is_empty_list {ℓ} : {A : Type ℓ} → List A → Bool
is_empty_list [] = true
is_empty_list (x ∷ xs) = false

module _ (blake2s : Blake2s) where
  -- One round of pass 1: bound, classify, bind to the VM's key, map.
  unfoldable pub prepare :
      StorageLogMetadata → StorageLog → ℕ → Outcome ((TreeLogEntry × TreeInstruction) × ℕ)
  unfolding hashed_key_u256
  prepare meta vm_log idx = do
    ensure (leb (length meta.merkle_paths) tree_depth) path_too_long
    base ← tree_log_entry_from_witness meta
    ensure (meta.leaf_hashed_key == hashed_key_u256 blake2s vm_log.key) key_mismatch
    (instruction, next) ← map_log_tree meta.leaf_hashed_key vm_log base idx
    ok ((base, instruction), next)

  -- Pass 1, over the zip of the entries and the logs.
  unfoldable pub prepare_all :
      List StorageLogMetadata
      → List StorageLog
      → ℕ
      → Outcome (List (TreeLogEntry × TreeInstruction) × ℕ)
  unfolding prepare
  prepare_all [] vm_logs idx = ok ([], idx)
  prepare_all (meta ∷ metas) [] idx = ok ([], idx)
  prepare_all (meta ∷ metas) (vm_log ∷ vm_logs) idx = do
    (prepared, next) ← prepare meta vm_log idx
    (rest, last) ← prepare_all metas vm_logs next
    ok (prepared ∷ rest, last)

  -- `load_path_into` copies the stored path as it is.
  unfoldable pub load_path : List H256 → List ValueHash
  load_path stored = stored

  unfoldable pub check_next_fold : TreeInstruction → List ValueHash → ValueHash → Outcome (Unit {0})
  check_next_fold (TreeInstruction.read key) full op_root = ok tt
  check_next_fold (TreeInstruction.write new_entry) full op_root = do
    next_hash ← blake2_fold_merkle_path blake2s full new_entry
    ensure (next_hash == op_root) next_hash_mismatch

  -- One round of pass 2, from the running root to the next.
  unfoldable pub fold_entry :
      StorageLogMetadata → TreeLogEntry × TreeInstruction → ValueHash → Outcome ValueHash
  unfolding load_path check_next_fold
  fold_entry meta (base, instruction) root_hash = do
    let full = load_path meta.merkle_paths
    check_op_root instruction base meta.root_hash root_hash
    prev_hash ← blake2_fold_merkle_path blake2s full (prev_entry base instruction)
    ensure (prev_hash == root_hash) prev_hash_mismatch
    check_next_fold instruction full meta.root_hash
    ok meta.root_hash

  unfoldable pub fold_all :
      List StorageLogMetadata
      → List (TreeLogEntry × TreeInstruction)
      → ValueHash
      → Outcome ValueHash
  unfolding fold_entry
  fold_all [] prepared root_hash = ok root_hash
  fold_all (meta ∷ metas) [] root_hash = ok root_hash
  fold_all (meta ∷ metas) (next ∷ prepared) root_hash = do
    op_root ← fold_entry meta next root_hash
    fold_all metas prepared op_root

  unfoldable pub verify_paths_and_new_root :
      WitnessInputMerklePaths → List StorageLog → ValueHash → ℕ → Outcome (ValueHash × ℕ)
  unfolding prepare_all fold_all
  verify_paths_and_new_root witness vm_logs old_root_hash enumeration_index = do
    let metas = witness.merkle_paths
    ensure (length metas == length vm_logs) count_mismatch
    ensure (not (is_empty_list metas)) root_hash_unavailable
    ensure (not (is_legacy_first metas)) legacy_form
    (instructions, next_index) ← prepare_all metas vm_logs enumeration_index
    root_hash ← fold_all metas instructions old_root_hash
    ok (root_hash, next_index)
