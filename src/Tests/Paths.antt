-- ===== src/Tests/Paths.antt =====
-- Stored paths and folds at concrete inputs.
use eravm_airbender_verifier.Common.{
  ℕ, ◌+◌, ◌≡◌, ◌<◌, ◌⊎◌, refl, true, false, List, [], ◌∷◌, ◌++◌, ok, arith, drop, replicate,
}
use eravm_airbender_verifier.Tree.Types.{H256, TreeEntry, TreeEntryWithProof}
use eravm_airbender_verifier.Tree.Hasher.{
  HashTree, fold_merkle_path, verify_entry, empty_hashes, extend_merkle_path,
}
use eravm_airbender_verifier.Tree.Blake2.{
  blake2_hasher, blake2_fold_merkle_path, empty_subtree_prefix_len, empty_run, fold_siblings,
}
use eravm_airbender_verifier.Tree.Trim.{
  blake2_fold_merkle_path-eq-fold_merkle_path, fold_merkle_path-drop,
}
use eravm_airbender_verifier.Tree.Roots.{Leaves, empty_leaf, entry_leaf, tree_root, PathCollision}
use eravm_airbender_verifier.Tree.Proofs.{verify_entry_binds}
use eravm_airbender_verifier.Witness.Defs.{
  StorageLogMetadata, WitnessInputMerklePaths, normalize_stored_paths, into_merkle_paths,
  check_lengths, decode_legacy, trim_logs, pad_log, push_merkle_path, is_legacy_delta_form,
}
use eravm_airbender_verifier.Witness.Normal.{
  IsNormal, normalize_stored_paths-IsNormal, normalize_stored_paths_idempotent,
  into_merkle_paths-normalize, AreCanonical, push_merkle_path-AreCanonical,
}
use eravm_airbender_verifier.Witness.Legacy.{legacy_encode, normalize-legacy_encode}
use eravm_airbender_verifier.Tests.Toy.{toy, toy-FoldsDigest, toy-ReturnsWords, tree_root-toy}

-- A hasher whose empty subtrees hash to their depth.
abbrev hasher : HashTree
hasher = record {
  hash_leaf = λ value index. value + index;
  hash_branch = λ lhs rhs. lhs + rhs;
  empty_subtree_hash = λ depth. depth;
}

abbrev entry : TreeEntry
entry = record { key = 5; value = 7; leaf_index = 3 }

blake2_fold_merkle_path-eq-fold_merkle_path_example :
    blake2_fold_merkle_path toy (9 ∷ 8 ∷ []) entry
    ≡ fold_merkle_path (blake2_hasher toy) (9 ∷ 8 ∷ []) entry
blake2_fold_merkle_path-eq-fold_merkle_path_example =
    blake2_fold_merkle_path-eq-fold_merkle_path toy toy-FoldsDigest (9 ∷ 8 ∷ []) entry

-- 254 and 255 are the empty prefix of this path: only its last hash is stored.
prefix_is_1 : empty_subtree_prefix_len hasher (254 ∷ 8 ∷ []) ≡ 1
unfolding empty_subtree_prefix_len empty_run
prefix_is_1 = refl

fold_merkle_path-drop_example :
    fold_merkle_path hasher
      (drop (empty_subtree_prefix_len hasher (254 ∷ 8 ∷ [])) (254 ∷ 8 ∷ []))
      entry
    ≡ fold_merkle_path hasher (254 ∷ 8 ∷ []) entry
fold_merkle_path-drop_example = fold_merkle_path-drop hasher (254 ∷ 8 ∷ []) entry

abbrev no_leaves : Leaves
no_leaves _ = empty_leaf

abbrev missing : TreeEntryWithProof
missing = record { base = record { key = 5; value = 0; leaf_index = 0 }; merkle_path = [] }

missing_accepted :
    verify_entry (blake2_hasher toy) missing (tree_root (blake2_hasher toy) no_leaves) ≡ ok tt
unfolding verify_entry blake2_fold_merkle_path fold_siblings extend_merkle_path empty_hashes
missing_accepted = rw (
  tree_root-toy no_leaves,
  ← blake2_fold_merkle_path-eq-fold_merkle_path toy toy-FoldsDigest [] missing.base,
)

verify_entry_binds_example :
    PathCollision (blake2_hasher toy) no_leaves missing.merkle_path missing.base
    ⊎ (no_leaves 5 ≡ entry_leaf missing.base)
verify_entry_binds_example =
    verify_entry_binds (blake2_hasher toy) toy-ReturnsWords no_leaves missing tt
      (record { index_IsU64 = omega arith; value_IsWord = omega arith })
      (record { index_IsU64 = omega arith; value_IsWord = omega arith }) (omega arith)
      missing_accepted

abbrev log_of : List H256 → StorageLogMetadata
log_of path = record {
  root_hash = 1;
  is_write = true;
  first_write = true;
  merkle_paths = path;
  leaf_hashed_key = 5;
  leaf_enumeration_index = 1;
  value_written = 2;
  value_read = 0;
}

abbrev stored : WitnessInputMerklePaths
stored = record {
  merkle_paths = log_of (254 ∷ 8 ∷ []) ∷ log_of (9 ∷ 8 ∷ []) ∷ [];
  next_enumeration_index = 4;
}

abbrev trimmed : WitnessInputMerklePaths
trimmed = record {
  merkle_paths = log_of (8 ∷ []) ∷ log_of (9 ∷ 8 ∷ []) ∷ [];
  next_enumeration_index = 4;
}

stored_normalizes : normalize_stored_paths hasher stored ≡ ok (trimmed, (1, 0))
unfolding normalize_stored_paths check_lengths decode_legacy trim_logs empty_subtree_prefix_len
    empty_run
stored_normalizes = refl

normalize_stored_paths-IsNormal_example :
    IsNormal hasher trimmed × (trimmed.next_enumeration_index ≡ stored.next_enumeration_index)
normalize_stored_paths-IsNormal_example =
    normalize_stored_paths-IsNormal hasher stored (trimmed, (1, 0)) stored_normalizes

normalize_stored_paths_idempotent_example :
    normalize_stored_paths hasher trimmed ≡ ok (trimmed, (0, 0))
normalize_stored_paths_idempotent_example =
    normalize_stored_paths_idempotent hasher stored (trimmed, (1, 0)) stored_normalizes

stored_per_path : is_legacy_delta_form stored ≡ false
unfolding is_legacy_delta_form
stored_per_path = refl

into_merkle_paths-normalize_example :
    into_merkle_paths hasher trimmed ≡ into_merkle_paths hasher stored
into_merkle_paths-normalize_example =
    into_merkle_paths-normalize hasher stored (trimmed, (1, 0)) stored_per_path stored_normalizes

-- 255 is the empty hash of the last level: nothing of this path is stored.
push_merkle_path-AreCanonical_example :
    AreCanonical hasher (push_merkle_path hasher trimmed (log_of (255 ∷ []))).merkle_paths
    × (into_merkle_paths hasher (push_merkle_path hasher trimmed (log_of (255 ∷ [])))
        ≡ into_merkle_paths hasher trimmed ++ pad_log hasher (log_of (255 ∷ [])) ∷ [])
    × ((push_merkle_path hasher trimmed (log_of (255 ∷ []))).next_enumeration_index
        ≡ trimmed.next_enumeration_index)
push_merkle_path-AreCanonical_example =
    push_merkle_path-AreCanonical hasher trimmed (log_of (255 ∷ []))
      (normalize_stored_paths-IsNormal hasher stored (trimmed, (1, 0))
        stored_normalizes).0.canonical
      (omega arith)

-- A full path with an empty prefix of one hash, and one that leaves it at the first level.
abbrev full : StorageLogMetadata
full = log_of (0 ∷ replicate 255 7)

abbrev full_other : StorageLogMetadata
full_other = log_of (replicate 256 7)

full_prefix : 0 < empty_subtree_prefix_len hasher full.merkle_paths
unfolding empty_subtree_prefix_len empty_run
full_prefix = omega arith

normalize-legacy_encode_example :
    (result : WitnessInputMerklePaths × (ℕ × ℕ)) × (normalize_stored_paths hasher
        (record { merkle_paths = legacy_encode full (full_other ∷ []); next_enumeration_index = 4 })
      ≡ ok result)
    × (into_merkle_paths hasher result.0 ≡ full ∷ full_other ∷ [])
normalize-legacy_encode_example =
    normalize-legacy_encode hasher full (full_other ∷ []) 4 (refl, (refl, tt)) full_prefix
