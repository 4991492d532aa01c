-- ===== src/Tests/Toy.antt =====
-- A digest that the runs can compute: the length of its input.
use eravm_airbender_verifier.Common.{
  ℕ, zero, suc, ◌+◌, ◌*◌, ◌≡◌, refl, sym, Bool, true, false, ◌++◌, arith, length, length-append,
  get_or, if◌then◌else◌,
}
use eravm_airbender_verifier.Bytes.{be_bytes}
use eravm_airbender_verifier.Bytes.Values.{length-be_bytes}
use eravm_airbender_verifier.Tree.Types.{H256}
use eravm_airbender_verifier.Tree.Blake2.{
  Blake2s, compress, hash_leaf, successors, empty_subtree_hash, blake2_hasher,
}
use eravm_airbender_verifier.Tree.Trim.{FoldsDigest}
use eravm_airbender_verifier.Tree.Roots.{Leaves, subtree_root, tree_root, IsWord, ReturnsWords}

abbrev pub toy : Blake2s
toy = record {
  digest = length;
  State = ℕ;
  from_single_block = length;
  fold = λ state sibling on_left. 64;
  finalize = λ state. state;
}

length-two_words : (a b : H256) → length (be_bytes 32 a ++ be_bytes 32 b) ≡ 64
length-two_words a b = omega (
  arith,
  length-append (be_bytes 32 a) (be_bytes 32 b),
  length-be_bytes 32 a,
  length-be_bytes 32 b,
)

pub toy-FoldsDigest : FoldsDigest toy
toy-FoldsDigest = record { finalize-from_single_block = λ bytes. refl; finalize-fold = folds }
  where
    folds :
        (state sibling : ℕ) (on_left : Bool)
        → 64 ≡ (
            if on_left
            then length (be_bytes 32 sibling ++ be_bytes 32 state)
            else length (be_bytes 32 state ++ be_bytes 32 sibling))
    folds state sibling true = sym (length-two_words sibling state)
    folds state sibling false = sym (length-two_words state sibling)

compress-IsWord : (a b : H256) → IsWord (compress toy a b)
unfolding compress
compress-IsWord a b = omega (arith, length-two_words a b)

successors-IsWord :
    (count depth : ℕ) (hash : H256)
    → IsWord hash
    → IsWord (get_or (successors toy count hash) depth 0)
unfolding successors
successors-IsWord zero depth hash h = omega arith
successors-IsWord (suc count) zero hash h = h
successors-IsWord (suc count) (suc depth) hash h =
    successors-IsWord count depth (compress toy hash hash) (compress-IsWord hash hash)

leaf-IsWord : (value index : ℕ) → IsWord (hash_leaf toy value index)
unfolding hash_leaf
leaf-IsWord value index = omega (
  arith,
  length-append (be_bytes 8 index) (be_bytes 32 value),
  length-be_bytes 8 index,
  length-be_bytes 32 value,
)

empty-IsWord : (depth : ℕ) → IsWord (empty_subtree_hash toy depth)
unfolding empty_subtree_hash
empty-IsWord depth = successors-IsWord 257 depth 40 (omega arith)

-- The root of any tree of some height.
subtree_root-toy :
    (height position : ℕ) (leaves : Leaves)
    → subtree_root (blake2_hasher toy) (suc height) leaves position ≡ 64
unfolding subtree_root blake2_hasher compress
subtree_root-toy height position leaves =
    length-two_words (subtree_root (blake2_hasher toy) height leaves (2 * position))
      (subtree_root (blake2_hasher toy) height leaves (2 * position + 1))

pub tree_root-toy : (leaves : Leaves) → tree_root (blake2_hasher toy) leaves ≡ 64
unfolding tree_root
tree_root-toy leaves = subtree_root-toy 255 0 leaves

pub toy-ReturnsWords : ReturnsWords (blake2_hasher toy)
unfolding blake2_hasher
toy-ReturnsWords = record {
  hash_leaf-IsWord = leaf-IsWord;
  hash_branch-IsWord = compress-IsWord;
  empty_subtree_hash-IsWord = empty-IsWord;
}
