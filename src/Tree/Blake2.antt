-- ===== src/Tree/Blake2.antt =====
-- crates/merkle_tree/src/hasher/mod.rs: the tree's own hasher, its fused fold of a path, and the
-- canonical empty prefix of a path. BLAKE2s itself is a dependency, and a parameter here.
use eravm_airbender_verifier.Common.{
  ℕ, zero, suc, ◌+◌, ◌-◌, Bool, List, [], ◌∷◌, ◌++◌, length, get_or, replicate, ◌==◌, leb, ltb,
  if◌then◌else◌, Outcome, ok, assert, ◌>>◌, merkle_path_overflow,
}
use eravm_airbender_verifier.Bytes.{be_bytes}
use eravm_airbender_verifier.Tree.Types.{H256, Key, ValueHash, tree_depth, TreeEntry}
use eravm_airbender_verifier.Tree.Hasher.{HashTree, bit, extend_merkle_path}

-- `airbender_crypto`: the digest, and `Blake2sPathHasher` with its state.
pub record Blake2s : Type 1 where
  pub digest : List ℕ → H256
  pub State : Type 0
  pub from_single_block : List ℕ → State
  pub fold : State → H256 → Bool → State
  pub finalize : State → H256

module _ (blake2s : Blake2s) where
  -- `Blake2Hasher` of crates/crypto_primitives
  unfoldable pub hash_bytes : List ℕ → H256
  hash_bytes bytes = blake2s.digest bytes

  -- The two updates of the digest hash the two words one after the other.
  unfoldable pub compress : H256 → H256 → H256
  compress lhs rhs = blake2s.digest (be_bytes 32 lhs ++ be_bytes 32 rhs)

  unfoldable pub leaf_input : ValueHash → ℕ → List ℕ
  leaf_input value leaf_index = be_bytes 8 leaf_index ++ be_bytes 32 value

  unfoldable pub hash_leaf : ValueHash → ℕ → ValueHash
  unfolding hash_bytes leaf_input
  hash_leaf value leaf_index = hash_bytes (leaf_input value leaf_index)

  -- `iter::successors(first, |hash| hash_branch(hash, hash)).take(count)`
  unfoldable pub successors : ℕ → ValueHash → List ValueHash
  unfolding compress
  successors zero hash = []
  successors (suc count) hash = hash ∷ successors count (compress hash hash)

  unfoldable pub compute_empty_tree_hashes : List ValueHash
  unfolding hash_bytes successors
  compute_empty_tree_hashes = successors (tree_depth + 1) (hash_bytes (replicate 40 0))

  -- The table is indexed up to `TREE_DEPTH` only; Rust panics on a greater depth.
  unfoldable pub empty_subtree_hash : ℕ → ValueHash
  unfolding compute_empty_tree_hashes
  empty_subtree_hash depth = get_or compute_empty_tree_hashes depth 0

  unfoldable pub blake2_hasher : HashTree
  unfolding hash_leaf compress empty_subtree_hash
  blake2_hasher = record {
    hash_leaf = hash_leaf;
    hash_branch = compress;
    empty_subtree_hash = empty_subtree_hash;
  }

  -- The loop of the fused fold, from a depth on.
  unfoldable pub fold_siblings : Key → ℕ → List ValueHash → blake2s.State → blake2s.State
  fold_siblings key depth [] state = state
  fold_siblings key depth (sibling ∷ rest) state =
      fold_siblings key (suc depth) rest (blake2s.fold state sibling (bit key depth))

  unfoldable pub blake2_fold_merkle_path : List ValueHash → TreeEntry → Outcome ValueHash
  blake2_fold_merkle_path path entry =
      assert (leb (length path) tree_depth) merkle_path_overflow
      >> ok (
          blake2s.finalize (
            fold_siblings entry.key 0 (extend_merkle_path blake2_hasher path)
              (blake2s.from_single_block (leaf_input entry.value entry.leaf_index))))

-- The run of a path, from a depth on, that holds the empty subtree's hash of each level.
unfoldable pub empty_run : HashTree → ℕ → List ValueHash → ℕ
empty_run hasher depth [] = 0
empty_run hasher depth (hash ∷ rest) =
    if hasher.empty_subtree_hash depth == hash then suc (empty_run hasher (suc depth) rest) else 0

unfoldable pub empty_subtree_prefix_len : HashTree → List ValueHash → ℕ
empty_subtree_prefix_len hasher path =
    if ltb tree_depth (length path) then 0 else empty_run hasher (tree_depth - length path) path
