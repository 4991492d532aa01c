-- ===== src/Witness/Defs.antt =====
-- crates/merkle_tree/src/witness.rs: the stored Merkle paths, and the only place where their form is
-- interpreted. The code fixes the hasher to `Blake2Hasher`; here it is an argument.
use eravm_airbender_verifier.Common.{
  ℕ, ◌+◌, ◌-◌, Bool, false, List, [], ◌∷◌, ◌++◌, map, length, take, drop, ◌==◌, ltb, leb,
  if◌then◌else◌, Outcome, ok, ensure, ◌>>=◌, ◌>>◌, path_before_normalisation, not_legacy_form,
}
use eravm_airbender_verifier.Bytes.{le_bytes}
use eravm_airbender_verifier.Tree.Types.{H256, tree_depth}
use eravm_airbender_verifier.Tree.Hasher.{HashTree, empty_hashes}
use eravm_airbender_verifier.Tree.Blake2.{empty_subtree_prefix_len}

pub record StorageLogMetadata : Type 0 where
  pub root_hash : H256
  pub is_write : Bool
  pub first_write : Bool
  pub merkle_paths : List H256
  pub leaf_hashed_key : ℕ
  pub leaf_enumeration_index : ℕ
  pub value_written : H256
  pub value_read : H256

pub record WitnessInputMerklePaths : Type 0 where
  pub merkle_paths : List StorageLogMetadata
  pub next_enumeration_index : ℕ

unfoldable pub leaf_hashed_key_array : StorageLogMetadata → List ℕ
leaf_hashed_key_array log = le_bytes 32 log.leaf_hashed_key

unfoldable pub new_witness : ℕ → WitnessInputMerklePaths
new_witness next_enumeration_index = record {
  merkle_paths = [];
  next_enumeration_index = next_enumeration_index;
}

abbrev pub is_legacy_first : List StorageLogMetadata → Bool
is_legacy_first [] = false
is_legacy_first (first ∷ rest) = length first.merkle_paths == tree_depth

unfoldable pub is_legacy_delta_form : WitnessInputMerklePaths → Bool
is_legacy_delta_form witness = is_legacy_first witness.merkle_paths

abbrev pub with_path : StorageLogMetadata → List H256 → StorageLogMetadata
with_path log path = record log { merkle_paths = path }

unfoldable pub check_lengths : List StorageLogMetadata → Outcome (Unit {0})
check_lengths [] = ok tt
check_lengths (log ∷ logs) =
    ensure (leb (length log.merkle_paths) tree_depth) path_before_normalisation
    >> check_lengths logs

-- The splice of one later entry from entry 0's populated part, and the count of spliced hashes.
unfoldable pub splice_log : List H256 → ℕ → StorageLogMetadata → StorageLogMetadata × ℕ
splice_log prefix populated_from log =
    let fui = tree_depth - length log.merkle_paths in
    if ltb populated_from fui
    then (
      with_path log (take (fui - populated_from) (drop populated_from prefix) ++ log.merkle_paths),
      fui - populated_from,
    )
    else (log, 0)

unfoldable pub splice_logs : List H256 → ℕ → List StorageLogMetadata → List StorageLogMetadata × ℕ
unfolding splice_log
splice_logs prefix populated_from [] = ([], 0)
splice_logs prefix populated_from (log ∷ logs) =
    let (log', count) = splice_log prefix populated_from log in
    let (logs', restored) = splice_logs prefix populated_from logs in
    (log' ∷ logs', count + restored)

module _ (hasher : HashTree) where
  -- The path without its canonical empty prefix.
  unfoldable pub trim_path : List H256 → List H256
  trim_path path = drop (empty_subtree_prefix_len hasher path) path

  unfoldable pub push_merkle_path :
      WitnessInputMerklePaths → StorageLogMetadata → WitnessInputMerklePaths
  unfolding trim_path
  push_merkle_path witness path = record witness {
    merkle_paths = witness.merkle_paths ++ with_path path (trim_path path.merkle_paths) ∷ [];
  }

  unfoldable pub decode_legacy : List StorageLogMetadata → Outcome (List StorageLogMetadata × ℕ)
  unfolding splice_logs
  decode_legacy [] = ok ([], 0)
  decode_legacy (first ∷ rest) =
      let populated_from = empty_subtree_prefix_len hasher first.merkle_paths in
      if length first.merkle_paths == tree_depth
      then (do
        ensure (ltb 0 populated_from) not_legacy_form
        let (rest', restored) = splice_logs first.merkle_paths populated_from rest
        ok (first ∷ rest', restored))
      else ok (first ∷ rest, 0)

  unfoldable pub trim_logs : List StorageLogMetadata → List StorageLogMetadata × ℕ
  unfolding trim_path
  trim_logs [] = ([], 0)
  trim_logs (log ∷ logs) =
      let (logs', reclaimed) = trim_logs logs in
      (
        with_path log (trim_path log.merkle_paths) ∷ logs',
        empty_subtree_prefix_len hasher log.merkle_paths + reclaimed,
      )

  -- The new witness, and the pair `(reclaimed, restored)`.
  unfoldable pub normalize_stored_paths :
      WitnessInputMerklePaths → Outcome (WitnessInputMerklePaths × (ℕ × ℕ))
  normalize_stored_paths witness = do
    check_lengths witness.merkle_paths
    (decoded, restored) ← decode_legacy witness.merkle_paths
    let (trimmed, reclaimed) = trim_logs decoded
    ok (record witness { merkle_paths = trimmed }, (reclaimed, restored))

  unfoldable pub pad_log : StorageLogMetadata → StorageLogMetadata
  pad_log log =
      let missing = tree_depth - length log.merkle_paths in
      with_path log (empty_hashes hasher 0 missing ++ log.merkle_paths)

  unfoldable pub into_merkle_paths : WitnessInputMerklePaths → List StorageLogMetadata
  unfolding pad_log
  into_merkle_paths witness = map pad_log witness.merkle_paths
