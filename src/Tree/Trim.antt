-- ===== src/Tree/Trim.antt =====
-- What the fold of a path does not depend on: the fused form, and the empty prefix.
use eravm_airbender_verifier.Common.{
  ℕ, zero, suc, ◌+◌, ◌-◌, ◌≡◌, ◌≤◌, refl, ap, Bool, List, [], ◌∷◌, ◌++◌, arith, length, drop, leb,
  ltb, ◌==◌, if◌then◌else◌, Bool-cases, inl, inr, ltb→ge, ge→ltb, length-drop,
}
use mathlib.Core.List.{append_assoc}
use native.Mathlib.Nat.{zero-add, add-zero}
use eravm_airbender_verifier.Tree.Types.{H256, ValueHash, tree_depth, TreeEntry}
use eravm_airbender_verifier.Tree.Hasher.{
  HashTree, empty_hashes, extend_merkle_path, fold_levels, fold_merkle_path,
}
use eravm_airbender_verifier.Tree.Blake2.{
  Blake2s, blake2_hasher, fold_siblings, blake2_fold_merkle_path, empty_run,
  empty_subtree_prefix_len,
}
use eravm_airbender_verifier.Bytes.{be_bytes}

-- What the documentation of `Blake2sPathHasher` says: the state stands for a digest, that of the
-- block at first, and of the two words in the order that the flag gives after each fold.
pub record FoldsDigest (blake2s : Blake2s) : Type 0 where
  pub finalize-from_single_block :
      (bytes : List ℕ) → blake2s.finalize (blake2s.from_single_block bytes) ≡ blake2s.digest bytes
  pub finalize-fold :
      (state : blake2s.State) (sibling : H256) (on_left : Bool)
      → blake2s.finalize (blake2s.fold state sibling on_left) ≡ (
          if on_left
          then blake2s.digest (be_bytes 32 sibling ++ be_bytes 32 (blake2s.finalize state))
          else blake2s.digest (be_bytes 32 (blake2s.finalize state) ++ be_bytes 32 sibling))

module _ (blake2s : Blake2s) (laws : FoldsDigest blake2s) where
  finalize-fold_siblings :
      (key depth : ℕ) (path : List ValueHash) (state : blake2s.State)
      → blake2s.finalize (fold_siblings blake2s key depth path state)
        ≡ fold_levels (blake2_hasher blake2s) key depth path (blake2s.finalize state)
  unfolding fold_siblings fold_levels blake2_hasher
  finalize-fold_siblings key depth [] state = refl
  finalize-fold_siblings key depth (sibling ∷ rest) state =
      rw (finalize-fold_siblings key (suc depth) rest, laws.finalize-fold)

  -- The fused fold is the generic one over the tree's hasher, on every path, too long ones included.
  pub blake2_fold_merkle_path-eq-fold_merkle_path :
      (path : List ValueHash) (entry : TreeEntry)
      → blake2_fold_merkle_path blake2s path entry
        ≡ fold_merkle_path (blake2_hasher blake2s) path entry
  unfolding blake2_fold_merkle_path fold_merkle_path
  blake2_fold_merkle_path-eq-fold_merkle_path path entry =
      rw (finalize-fold_siblings, laws.finalize-from_single_block) (unfold blake2_hasher in refl)

module _ (hasher : HashTree) where
  pub length-empty_hashes : (start count : ℕ) → length (empty_hashes hasher start count) ≡ count
  unfolding empty_hashes
  length-empty_hashes start zero = refl
  length-empty_hashes start (suc count) = ap suc (length-empty_hashes (suc start) count)

  pub empty_hashes-add :
      (start a b : ℕ)
      → empty_hashes hasher start (a + b)
        ≡ empty_hashes hasher start a ++ empty_hashes hasher (start + a) b
  unfolding empty_hashes
  empty_hashes-add start zero b = rw (zero-add, add-zero)
  empty_hashes-add start (suc a) b =
      let e : suc a + b ≡ suc (a + b) = omega arith in
      let d : start + suc a ≡ suc start + a = omega arith in
      rw (e, d, empty_hashes-add (suc start) a b)

  pub empty_run-le : (depth : ℕ) (path : List ValueHash) → empty_run hasher depth path ≤ length path
  unfolding empty_run
  empty_run-le depth [] = omega arith
  empty_run-le depth (hash ∷ rest) = ground (arith, empty_run-le (suc depth) rest)

  -- A path is its empty run and the rest.
  pub empty_run-append :
      (depth : ℕ) (path : List ValueHash)
      → empty_hashes hasher depth (empty_run hasher depth path)
          ++ drop (empty_run hasher depth path) path
        ≡ path
  unfolding empty_run empty_hashes
  empty_run-append depth [] = refl
  empty_run-append depth (hash ∷ rest) = ground (arith, empty_run-append (suc depth) rest)

  -- Nothing of the rest is in the run at its own depth.
  pub empty_run-drop :
      (depth : ℕ) (path : List ValueHash)
      → empty_run hasher
          (depth + empty_run hasher depth path)
          (drop (empty_run hasher depth path) path)
        ≡ 0
  unfolding empty_run
  empty_run-drop depth [] = refl
  empty_run-drop depth (hash ∷ rest) = elim (Bool-cases (hasher.empty_subtree_hash depth == hash)) [
    | inl same ↦
        let d : depth + suc (empty_run hasher (suc depth) rest)
            ≡ suc depth + empty_run hasher (suc depth) rest =
          omega arith in
        rw (same, d) (empty_run-drop (suc depth) rest)
    | inr other ↦ rw (other, add-zero, other)
  ]

  -- Padding a path and padding it without its empty prefix give the same full path.
  pub extend_merkle_path-drop :
      (path : List ValueHash)
      → extend_merkle_path hasher (drop (empty_subtree_prefix_len hasher path) path)
        ≡ extend_merkle_path hasher path
  unfolding extend_merkle_path empty_subtree_prefix_len
  extend_merkle_path-drop path = elim (Bool-cases (ltb tree_depth (length path))) [
    | inl long ↦ rw long
    | inr short ↦
        let base = tree_depth - length path in
        let n = empty_run hasher base path in
        let fits : n ≤ length path = empty_run-le base path in
        let room : length path ≤ tree_depth = ltb→ge _ _ short in
        let e : tree_depth - (length path - n) ≡ base + n = omega arith in
        rw (short, length-drop, e, empty_hashes-add, zero-add, append_assoc, empty_run-append)
  ]

  -- An over-long path is not shortened into a valid one, and a valid one stays valid.
  leb-drop :
      (path : List ValueHash)
      → leb (length path - empty_subtree_prefix_len hasher path) tree_depth
        ≡ leb (length path) tree_depth
  unfolding empty_subtree_prefix_len
  leb-drop path = ground arith

  -- The empty prefix of a path does not change what it folds to, nor whether it is too long.
  pub fold_merkle_path-drop :
      (path : List ValueHash) (entry : TreeEntry)
      → fold_merkle_path hasher (drop (empty_subtree_prefix_len hasher path) path) entry
        ≡ fold_merkle_path hasher path entry
  unfolding fold_merkle_path
  fold_merkle_path-drop path entry = rw (extend_merkle_path-drop, length-drop, leb-drop)

  -- What is left has no empty prefix.
  pub empty_subtree_prefix_len-drop :
      (path : List ValueHash)
      → empty_subtree_prefix_len hasher (drop (empty_subtree_prefix_len hasher path) path) ≡ 0
  unfolding empty_subtree_prefix_len
  empty_subtree_prefix_len-drop path = elim (Bool-cases (ltb tree_depth (length path))) [
    | inl long ↦ rw (long, long)
    | inr short ↦
        let base = tree_depth - length path in
        let n = empty_run hasher base path in
        let fits : n ≤ length path = empty_run-le base path in
        let room : length path ≤ tree_depth = ltb→ge _ _ short in
        let e : tree_depth - (length path - n) ≡ base + n = omega arith in
        rw (short, length-drop, ge→ltb tree_depth (length path - n) (omega arith), e)
          (empty_run-drop base path)
  ]

  pub empty_subtree_prefix_len-le :
      (path : List ValueHash) → empty_subtree_prefix_len hasher path ≤ length path
  unfolding empty_subtree_prefix_len
  empty_subtree_prefix_len-le path = ground (arith, empty_run-le (tree_depth - length path) path)
