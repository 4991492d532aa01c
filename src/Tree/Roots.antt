-- ===== src/Tree/Roots.antt =====
-- The abstract tree that a root hash stands for: a leaf at every key. Nothing of it is in the code,
-- which only ever holds a root and the sibling hashes of a path.
use eravm_airbender_verifier.Common.{
  ℕ, zero, suc, ◌+◌, ◌*◌, ◌-◌, ◌/◌, ◌%◌, ◌^◌, ◌≡◌, ◌≢◌, ◌<◌, ◌⊎◌, List, [], ◌∷◌, ◌==◌, true, false,
  if◌then◌else◌,
}
use eravm_airbender_verifier.Tree.Types.{Key, ValueHash, tree_depth, TreeEntry}
use eravm_airbender_verifier.Tree.Hasher.{HashTree, bit, extend_merkle_path}

pub record Leaf : Type 0 where
  pub leaf_index : ℕ
  pub value : ValueHash

-- The ranges of `H256` and of `u64`.
abbrev pub IsWord : ℕ → Type 0
IsWord h = h < 2 ^ 256

abbrev pub IsU64 : ℕ → Type 0
IsU64 i = i < 2 ^ 64

abbrev pub AreWords : List ValueHash → Type 0
AreWords [] = Unit
AreWords (h ∷ hs) = IsWord h × AreWords hs

pub record InRange (leaf : Leaf) : Type 0 where
  pub index_IsU64 : IsU64 leaf.leaf_index
  pub value_IsWord : IsWord leaf.value

-- A hasher returns 256 bits.
pub record ReturnsWords (hasher : HashTree) : Type 0 where
  pub hash_leaf-IsWord : (v : ValueHash) (i : ℕ) → IsWord (hasher.hash_leaf v i)
  pub hash_branch-IsWord : (a b : ValueHash) → IsWord (hasher.hash_branch a b)
  pub empty_subtree_hash-IsWord : (depth : ℕ) → IsWord (hasher.empty_subtree_hash depth)

abbrev pub Leaves : Type 0
Leaves = Key → Leaf

abbrev pub empty_leaf : Leaf
empty_leaf = record { leaf_index = 0; value = 0 }

abbrev pub entry_leaf : TreeEntry → Leaf
entry_leaf entry = record { leaf_index = entry.leaf_index; value = entry.value }

abbrev pub update : Leaves → Key → Leaf → Leaves
update leaves key leaf q = if q == key then leaf else leaves q

-- The position of a key's ancestor at a height.
abbrev pub ancestor : Key → ℕ → ℕ
ancestor key height = key / 2 ^ height

abbrev pub sibling : ℕ → ℕ
sibling position = if position % 2 == 1 then position - 1 else position + 1

module _ (hasher : HashTree) where
  unfoldable pub subtree_root : ℕ → Leaves → ℕ → ValueHash
  subtree_root zero leaves position =
      hasher.hash_leaf (leaves position).value (leaves position).leaf_index
  subtree_root (suc height) leaves position =
      hasher.hash_branch (subtree_root height leaves (2 * position))
        (subtree_root height leaves (2 * position + 1))

  unfoldable pub tree_root : Leaves → ValueHash
  tree_root leaves = subtree_root tree_depth leaves 0

  -- The list holds the siblings on the way from a height up.
  abbrev pub Siblings : Leaves → Key → ℕ → List ValueHash → Type 0
  Siblings leaves key height [] = Unit
  Siblings leaves key height (adjacent_hash ∷ rest) =
      (adjacent_hash ≡ subtree_root height leaves (sibling (ancestor key height)))
      × Siblings leaves key (suc height) rest

  -- One level of the fold, from the node and the sibling on a key's way up.
  unfoldable pub level : Key → ℕ → ValueHash → ValueHash → ValueHash
  level key height adjacent_hash hash =
      if bit key height
      then hasher.hash_branch adjacent_hash hash
      else hasher.hash_branch hash adjacent_hash

  -- The two children that the tree has under a node, and two other ones of the same hash.
  pub record NodeCollides (leaves : Leaves) (height position : ℕ) (left right : ValueHash)
      : Type 0 where
    pub same_hash : hasher.hash_branch left right ≡ subtree_root (suc height) leaves position
    pub children_differ :
        (left ≢ subtree_root height leaves (2 * position))
        ⊎ (right ≢ subtree_root height leaves (2 * position + 1))
    pub left_IsWord : IsWord left
    pub right_IsWord : IsWord right

  -- At some level of the fold of a path, what it hashes is not what the tree has under the node on the
  -- key's way, and yet has the hash of that node.
  pub data FoldCollision (leaves : Leaves) (key : Key)
      : ℕ → List ValueHash → ValueHash → Type 0 where
    right_child_collides :
        {height : ℕ} {adjacent_hash hash : ValueHash} {rest : List ValueHash}
        → bit key height ≡ true
        → NodeCollides leaves height (ancestor key (suc height)) adjacent_hash hash
        → FoldCollision leaves key height (adjacent_hash ∷ rest) hash
    left_child_collides :
        {height : ℕ} {adjacent_hash hash : ValueHash} {rest : List ValueHash}
        → bit key height ≡ false
        → NodeCollides leaves height (ancestor key (suc height)) hash adjacent_hash
        → FoldCollision leaves key height (adjacent_hash ∷ rest) hash
    collides_above :
        {height : ℕ} {adjacent_hash hash : ValueHash} {rest : List ValueHash}
        → FoldCollision leaves key (suc height) rest (level key height adjacent_hash hash)
        → FoldCollision leaves key height (adjacent_hash ∷ rest) hash

  -- The fold of an entry's path against the tree: the entry's leaf is hashed as the leaf that the tree
  -- has at its key, and is another one, or a level of the fold collides.
  pub data PathCollision (leaves : Leaves) (path : List ValueHash) (entry : TreeEntry)
      : Type 0 where
    leaf_collides :
        hasher.hash_leaf entry.value entry.leaf_index
          ≡ hasher.hash_leaf (leaves entry.key).value (leaves entry.key).leaf_index
        → (entry.value ≢ (leaves entry.key).value)
          ⊎ (entry.leaf_index ≢ (leaves entry.key).leaf_index)
        → InRange (entry_leaf entry)
        → InRange (leaves entry.key)
        → PathCollision leaves path entry
    level_collides :
        FoldCollision leaves entry.key 0
          (extend_merkle_path hasher path)
          (hasher.hash_leaf entry.value entry.leaf_index)
        → PathCollision leaves path entry
