-- ===== src/Tree/Hasher.antt =====
-- crates/merkle_tree/src/hasher/mod.rs and proofs.rs: the hasher interface and the folds of a path.
use eravm_airbender_verifier.Common.{
  ℕ, zero, suc, ◌-◌, ◌/◌, ◌%◌, ◌^◌, Bool, true, List, [], ◌∷◌, ◌++◌, length, ◌==◌, leb, not,
  if◌then◌else◌, Outcome, ok, ensure, assert, ◌>>=◌, ◌>>◌, merkle_path_overflow,
  instructions_mismatch, path_too_long, op_root_mismatch, base_not_read, base_is_read,
  prev_hash_mismatch, next_hash_mismatch, missing_value, root_mismatch,
}
use eravm_airbender_verifier.Tree.Types.{
  Key, ValueHash, tree_depth, TreeEntry, TreeInstruction, instruction_key, new_entry, empty_entry,
  TreeEntryWithProof, TreeLogEntry, is_read, TreeLogEntryWithProof, BlockOutputWithProofs,
}

-- The trait `HashTree`, without its name.
pub record HashTree : Type 0 where
  pub hash_leaf : ValueHash → ℕ → ValueHash
  pub hash_branch : ValueHash → ValueHash → ValueHash
  pub empty_subtree_hash : ℕ → ValueHash

unfoldable pub empty_tree_hash : HashTree → ValueHash
empty_tree_hash hasher = hasher.empty_subtree_hash tree_depth

-- `U256::bit`
unfoldable pub bit : Key → ℕ → Bool
bit key depth = (key / 2 ^ depth) % 2 == 1

module _ (hasher : HashTree) where
  -- `(start..start + count).map(|depth| self.empty_subtree_hash(depth))`
  unfoldable pub empty_hashes : ℕ → ℕ → List ValueHash
  empty_hashes start zero = []
  empty_hashes start (suc count) = hasher.empty_subtree_hash start ∷ empty_hashes (suc start) count

  unfoldable pub extend_merkle_path : List ValueHash → List ValueHash
  extend_merkle_path path = empty_hashes 0 (tree_depth - length path) ++ path

  -- The loop of the fold, from a depth on.
  unfoldable pub fold_levels : Key → ℕ → List ValueHash → ValueHash → ValueHash
  fold_levels key depth [] hash = hash
  fold_levels key depth (adjacent_hash ∷ rest) hash = fold_levels key (suc depth) rest (
      if bit key depth
      then hasher.hash_branch adjacent_hash hash
      else hasher.hash_branch hash adjacent_hash)

  -- On a path that is too long `TREE_DEPTH - path.len()` underflows: a panic where the overflow is
  -- checked, and else the empty subtree hashes run out of their table.
  unfoldable pub fold_merkle_path : List ValueHash → TreeEntry → Outcome ValueHash
  fold_merkle_path path entry =
      assert (leb (length path) tree_depth) merkle_path_overflow
      >> ok (
          fold_levels entry.key 0 (extend_merkle_path path)
            (hasher.hash_leaf entry.value entry.leaf_index))

-- What `verify_proofs` and the streaming pass do with the classified entry and its instruction.
unfoldable pub prev_entry : TreeLogEntry → TreeInstruction → TreeEntry
prev_entry TreeLogEntry.inserted instruction = empty_entry (instruction_key instruction)
prev_entry TreeLogEntry.read_missing_key instruction = empty_entry (instruction_key instruction)
prev_entry (TreeLogEntry.updated leaf_index value) instruction =
    new_entry (instruction_key instruction) leaf_index value
prev_entry (TreeLogEntry.read leaf_index value) instruction =
    new_entry (instruction_key instruction) leaf_index value

-- The checks on the claimed root before the fold.
unfoldable pub check_op_root :
    TreeInstruction → TreeLogEntry → ValueHash → ValueHash → Outcome (Unit {0})
check_op_root (TreeInstruction.read key) base op_root root_hash =
    ensure (op_root == root_hash) op_root_mismatch >> ensure (is_read base) base_not_read
check_op_root (TreeInstruction.write entry) base op_root root_hash =
    ensure (not (is_read base)) base_is_read

module _ (hasher : HashTree) where
  unfoldable pub check_next_hash : TreeInstruction → List ValueHash → ValueHash → Outcome (Unit {0})
  check_next_hash (TreeInstruction.read key) path op_root = ok tt
  check_next_hash (TreeInstruction.write entry) path op_root = do
    next_hash ← fold_merkle_path hasher path entry
    ensure (next_hash == op_root) next_hash_mismatch

  -- One round of the loop of `verify_proofs`.
  unfoldable pub verify_op : ValueHash → TreeLogEntryWithProof → TreeInstruction → Outcome ValueHash
  verify_op root_hash op instruction = do
    ensure (leb (length op.merkle_path) tree_depth) path_too_long
    check_op_root instruction op.base op.root_hash root_hash
    prev_hash ← fold_merkle_path hasher op.merkle_path (prev_entry op.base instruction)
    ensure (prev_hash == root_hash) prev_hash_mismatch
    check_next_hash instruction op.merkle_path op.root_hash
    ok op.root_hash

  unfoldable pub verify_ops :
      ValueHash → List TreeLogEntryWithProof → List TreeInstruction → Outcome (Unit {0})
  verify_ops root_hash [] instructions = ok tt
  verify_ops root_hash (op ∷ ops) [] = ok tt
  verify_ops root_hash (op ∷ ops) (instruction ∷ instructions) =
      verify_op root_hash op instruction >>= λ next. verify_ops next ops instructions

  unfoldable pub verify_proofs :
      BlockOutputWithProofs → ValueHash → List TreeInstruction → Outcome (Unit {0})
  verify_proofs output old_root_hash instructions = do
    ensure (length instructions == length output.logs) instructions_mismatch
    verify_ops old_root_hash output.logs instructions

  -- `TreeEntryWithProof::verify`
  unfoldable pub verify_entry : TreeEntryWithProof → ValueHash → Outcome (Unit {0})
  verify_entry entry trusted_root_hash = do
    ensure (if entry.base.leaf_index == 0 then entry.base.value == 0 else true) missing_value
    root_hash ← fold_merkle_path hasher entry.merkle_path entry.base
    ensure (root_hash == trusted_root_hash) root_mismatch
