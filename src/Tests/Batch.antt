-- ===== src/Tests/Batch.antt =====
-- A batch of two logs over the empty tree: a first write, and a read of what it wrote.
use eravm_airbender_verifier.Common.{
  ℕ, refl, ◌*◌, ◌^◌, ◌≡◌, ◌⊎◌, true, false, List, [], ◌∷◌, ok, arith,
}
use eravm_airbender_verifier.Tree.Blake2.{blake2_hasher}
use eravm_airbender_verifier.Tree.Roots.{Leaves, empty_leaf, tree_root}
use eravm_airbender_verifier.Witness.Defs.{StorageLogMetadata, WitnessInputMerklePaths}
use eravm_airbender_verifier.Storage.Log.{StorageKey, StorageLog, read, initial_write}
use eravm_airbender_verifier.Verifier.Streaming.{verify_paths_and_new_root}
use eravm_airbender_verifier.Verifier.Replay.{MetasInRange, LogsInRange, TreeInRange}
use eravm_airbender_verifier.Verifier.Soundness.{IsReplayed, BatchCollision}
use eravm_airbender_verifier.Verifier.Sound.{verify_paths_sound}
use eravm_airbender_verifier.Bytes.{be_bytes, le_value}
use eravm_airbender_verifier.Storage.Log.{raw_hashed_key}
use eravm_airbender_verifier.Tree.Types.{is_read}
use eravm_airbender_verifier.Tree.Hasher.{check_op_root, extend_merkle_path, empty_hashes}
use eravm_airbender_verifier.Tree.Blake2.{blake2_fold_merkle_path, fold_siblings}
use eravm_airbender_verifier.Verifier.Defs.{tree_log_entry_from_witness, map_log_tree}
use eravm_airbender_verifier.Tests.Toy.{toy, toy-FoldsDigest, toy-ReturnsWords, tree_root-toy}

abbrev pub key : StorageKey
key = record { address = 1; key = 2 }

-- The hashed key: the bytes of 64, most significant first, read from the other end.
abbrev hashed : ℕ
hashed = 64 * 2 ^ 248

abbrev pub logs : List StorageLog
logs =
    record { kind = initial_write; key = key; value = 5 }
    ∷ record { kind = read; key = key; value = 5 }
    ∷ []

abbrev first_entry : StorageLogMetadata
first_entry = record {
  root_hash = 64;
  is_write = true;
  first_write = true;
  merkle_paths = [];
  leaf_hashed_key = hashed;
  leaf_enumeration_index = 1;
  value_written = 5;
  value_read = 0;
}

abbrev second_entry : StorageLogMetadata
second_entry = record {
  root_hash = 64;
  is_write = false;
  first_write = false;
  merkle_paths = [];
  leaf_hashed_key = hashed;
  leaf_enumeration_index = 1;
  value_written = 0;
  value_read = 5;
}

abbrev pub batch : WitnessInputMerklePaths
batch = record { merkle_paths = first_entry ∷ second_entry ∷ []; next_enumeration_index = 1 }

abbrev pub no_leaves : Leaves
no_leaves _ = empty_leaf

pub batch_metas : MetasInRange batch.merkle_paths
batch_metas = (
  record {
    paths_AreWords = tt;
    key_IsWord = omega arith;
    index_IsU64 = omega arith;
    value_IsWord = omega arith;
  },
  (
    record {
      paths_AreWords = tt;
      key_IsWord = omega arith;
      index_IsU64 = omega arith;
      value_IsWord = omega arith;
    },
    tt,
  ),
)

pub batch_logs : LogsInRange logs
batch_logs = (omega arith, (omega arith, tt))

pub no_leaves-InRange : TreeInRange (no_leaves, 1)
no_leaves-InRange = record {
  leaves_InRange = λ key. record { index_IsU64 = omega arith; value_IsWord = omega arith };
  next_IsU64 = omega arith;
}

pub batch_accepted :
    verify_paths_and_new_root toy batch logs (tree_root (blake2_hasher toy) no_leaves) 1
    ≡ ok (64, 2)
unfolding verify_paths_and_new_root tree_log_entry_from_witness le_value raw_hashed_key be_bytes
    map_log_tree check_op_root is_read blake2_fold_merkle_path fold_siblings extend_merkle_path
    empty_hashes
batch_accepted = rw (tree_root-toy no_leaves)

-- The first write alone.
abbrev pub one_log : List StorageLog
one_log = record { kind = initial_write; key = key; value = 5 } ∷ []

abbrev pub one_entry : WitnessInputMerklePaths
one_entry = record { merkle_paths = first_entry ∷ []; next_enumeration_index = 1 }

pub one_entry-InRange : MetasInRange one_entry.merkle_paths
one_entry-InRange = (batch_metas.0, tt)

pub one_entry_accepted : verify_paths_and_new_root toy one_entry one_log 64 1 ≡ ok (64, 2)
unfolding verify_paths_and_new_root tree_log_entry_from_witness le_value raw_hashed_key be_bytes
    map_log_tree check_op_root is_read blake2_fold_merkle_path fold_siblings extend_merkle_path
    empty_hashes
one_entry_accepted = refl

verify_paths_sound_example :
    BatchCollision toy (no_leaves, 1) batch.merkle_paths logs
    ⊎ IsReplayed toy (no_leaves, 1) batch.merkle_paths logs (64, 2)
verify_paths_sound_example =
    verify_paths_sound toy batch logs no_leaves 1 (64, 2) toy-FoldsDigest toy-ReturnsWords
      batch_metas batch_logs no_leaves-InRange batch_accepted
