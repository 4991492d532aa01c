-- ===== src/Tree/Binding.antt =====
-- A path that folds to the root of a tree holds the tree's own siblings, and its leaf is the tree's,
-- unless the fold shows a collision of the hasher.
use native.Mathlib.Nat.{div-div-eq-div-mul, div-one, pow-suc}
use mathlib.Core.Path.{ap₂}
use native.Mathlib.Decide.{ℕ_discrete}
use eravm_airbender_verifier.Common.{
  ℕ, zero, suc, ◌+◌, ◌*◌, ◌/◌, ◌≡◌, ◌≢◌, ◌⊎◌, inl, inr, refl, sym, ◌∙◌, List, [], ◌∷◌, arith,
  length, Bool-cases,
}
use eravm_airbender_verifier.Tree.Types.{Key, ValueHash, TreeEntry}
use eravm_airbender_verifier.Tree.Hasher.{HashTree, bit, empty_hashes, fold_levels}
use eravm_airbender_verifier.Tree.Roots.{
  Leaf, Leaves, IsWord, AreWords, ReturnsWords, update, ancestor, sibling, subtree_root, Siblings,
  level, entry_leaf, InRange, NodeCollides, FoldCollision, right_child_collides,
  left_child_collides, collides_above, PathCollision, leaf_collides,
}

pub ancestor-suc : (key height : ℕ) → ancestor key (suc height) ≡ ancestor key height / 2
ancestor-suc key height = rw (pow-suc, ← div-div-eq-div-mul)

sibling-ne : (position : ℕ) → sibling position ≢ position
sibling-ne position = ground arith

module _ (hasher : HashTree) where
  branch_injective :
      (leaves : Leaves) (height position : ℕ) (a b : ValueHash)
      → IsWord a
      → IsWord b
      → hasher.hash_branch a b ≡ subtree_root hasher (suc height) leaves position
      → NodeCollides hasher leaves height position a b
        ⊎ ((a ≡ subtree_root hasher height leaves (2 * position))
            × (b ≡ subtree_root hasher height leaves (2 * position + 1)))
  branch_injective leaves height position a b wa wb e =
      elim (ℕ_discrete a (subtree_root hasher height leaves (2 * position))) [
        | no p ↦
            inl (record {
              same_hash = e;
              children_differ = inl p;
              left_IsWord = wa;
              right_IsWord = wb;
            })
        | yes p ↦ elim (ℕ_discrete b (subtree_root hasher height leaves (2 * position + 1))) [
          | no q ↦ inl (record {
            same_hash = e;
            children_differ = inr q;
            left_IsWord = wa;
            right_IsWord = wb;
          })
          | yes q ↦ inr (p, q)
        ]
      ]

  pub leaf_injective :
      (leaves : Leaves) (path : List ValueHash) (entry : TreeEntry)
      → InRange (entry_leaf entry)
      → InRange (leaves entry.key)
      → hasher.hash_leaf entry.value entry.leaf_index
        ≡ hasher.hash_leaf (leaves entry.key).value (leaves entry.key).leaf_index
      → PathCollision hasher leaves path entry
        ⊎ ((entry.value ≡ (leaves entry.key).value)
            × (entry.leaf_index ≡ (leaves entry.key).leaf_index))
  leaf_injective leaves path entry we wl e =
      elim (ℕ_discrete entry.value (leaves entry.key).value) [
        | no p ↦ inl (leaf_collides e (inl p) we wl)
        | yes p ↦ elim (ℕ_discrete entry.leaf_index (leaves entry.key).leaf_index) [
          | no q ↦ inl (leaf_collides e (inr q) we wl)
          | yes q ↦ inr (p, q)
        ]
      ]

module _ (hasher : HashTree) (words : ReturnsWords hasher) where
  pub subtree_root-IsWord :
      (height : ℕ) (leaves : Leaves) (position : ℕ)
      → IsWord (subtree_root hasher height leaves position)
  unfolding subtree_root
  subtree_root-IsWord zero leaves position = words.hash_leaf-IsWord _ _
  subtree_root-IsWord (suc height) leaves position = words.hash_branch-IsWord _ _

  pub empty_hashes-AreWords : (start count : ℕ) → AreWords (empty_hashes hasher start count)
  unfolding empty_hashes
  empty_hashes-AreWords start zero = tt
  empty_hashes-AreWords start (suc count) =
      (words.empty_subtree_hash-IsWord start, empty_hashes-AreWords (suc start) count)

  level-subtree_root :
      (leaves : Leaves) (key height : ℕ)
      → level hasher key height
          (subtree_root hasher height leaves (sibling (ancestor key height)))
          (subtree_root hasher height leaves (ancestor key height))
        ≡ subtree_root hasher (suc height) leaves (ancestor key (suc height))
  unfolding level subtree_root bit
  level-subtree_root leaves key height = ground (arith, ancestor-suc key height)

  level-IsWord :
      (key height : ℕ) (adjacent_hash hash : ValueHash)
      → IsWord (level hasher key height adjacent_hash hash)
  unfolding level
  level-IsWord key height adjacent_hash hash = ground (
    arith,
    words.hash_branch-IsWord adjacent_hash hash,
    words.hash_branch-IsWord hash adjacent_hash,
  )

  level_binds :
      (leaves : Leaves) (key height : ℕ) (adjacent_hash hash : ValueHash) (rest : List ValueHash)
      → IsWord adjacent_hash
      → IsWord hash
      → level hasher key height adjacent_hash hash
        ≡ subtree_root hasher (suc height) leaves (ancestor key (suc height))
      → FoldCollision hasher leaves key height (adjacent_hash ∷ rest) hash
        ⊎ ((adjacent_hash ≡ subtree_root hasher height leaves (sibling (ancestor key height)))
            × (hash ≡ subtree_root hasher height leaves (ancestor key height)))
  unfolding level bit
  level_binds leaves key height adjacent_hash hash rest wa wh e =
      let parent = ancestor key (suc height) in
      elim (Bool-cases (bit key height)) [
        | inl right ↦
            elim (branch_injective hasher leaves height parent adjacent_hash hash wa wh
              (rw right at e)) [
                | inl c ↦ inl (right_child_collides right c)
                | inr same ↦ inr (
                  ground (arith, ancestor-suc key height),
                  ground (arith, ancestor-suc key height),
                )
              ]
        | inr left ↦
            elim (branch_injective hasher leaves height parent hash adjacent_hash wh wa
              (rw left at e)) [
                | inl c ↦ inl (left_child_collides left c)
                | inr same ↦ inr (
                  ground (arith, ancestor-suc key height),
                  ground (arith, ancestor-suc key height),
                )
              ]
      ]

  -- The loop of the fold goes level by level.
  fold_levels-cons :
      (key height : ℕ) (adjacent_hash : ValueHash) (rest : List ValueHash) (hash : ValueHash)
      → fold_levels hasher key height (adjacent_hash ∷ rest) hash
        ≡ fold_levels hasher key (suc height) rest (level hasher key height adjacent_hash hash)
  unfolding fold_levels level
  fold_levels-cons key height adjacent_hash rest hash = refl

  -- A fold that ends in the root of a subtree started from the node below on the key's way, and met
  -- the siblings of that way.
  pub fold_levels_binds :
      (leaves : Leaves) (key height top : ℕ) (path : List ValueHash) (hash : ValueHash)
      → AreWords path
      → IsWord hash
      → height + length path ≡ top
      → fold_levels hasher key height path hash ≡ subtree_root hasher top leaves (ancestor key top)
      → FoldCollision hasher leaves key height path hash
        ⊎ ((hash ≡ subtree_root hasher height leaves (ancestor key height))
            × Siblings hasher leaves key height path)
  unfolding fold_levels
  fold_levels_binds leaves key height top [] hash wp wh h e =
      let same : top ≡ height = omega arith in inr (rw same at e, tt)
  fold_levels_binds leaves key height top (adjacent_hash ∷ rest) hash wp wh h e =
      elim (fold_levels_binds leaves key (suc height) top rest
        (level hasher key height adjacent_hash hash) wp.1
        (level-IsWord key height adjacent_hash hash) (omega arith)
        (sym (fold_levels-cons key height adjacent_hash rest hash) ∙ e)) [
          | inl c ↦ inl (collides_above c)
          | inr (node, above) ↦
              elim (level_binds leaves key height adjacent_hash hash rest wp.0 wh node) [
                | inl c ↦ inl c
                | inr (here, below) ↦ inr (below, (here, above))
              ]
        ]

  -- The other direction: with the tree's node and siblings the fold ends in the tree's root.
  pub fold_levels-subtree_root :
      (leaves : Leaves) (key height top : ℕ) (path : List ValueHash)
      → height + length path ≡ top
      → Siblings hasher leaves key height path
      → fold_levels hasher key height path (subtree_root hasher height leaves (ancestor key height))
        ≡ subtree_root hasher top leaves (ancestor key top)
  unfolding fold_levels
  fold_levels-subtree_root leaves key height top [] h s =
      let same : top ≡ height = omega arith in rw same
  fold_levels-subtree_root leaves key height top (adjacent_hash ∷ rest) h s =
      fold_levels-cons key height adjacent_hash rest _
      ∙ rw (s.0, level-subtree_root leaves key height)
          (fold_levels-subtree_root leaves key (suc height) top rest (omega arith) s.1)

  -- A write at one key leaves every subtree off its way alone.
  pub subtree_root-update_ne :
      (leaves : Leaves) (key : Key) (leaf : Leaf) (height position : ℕ)
      → position ≢ ancestor key height
      → subtree_root hasher height (update leaves key leaf) position
        ≡ subtree_root hasher height leaves position
  unfolding subtree_root
  subtree_root-update_ne leaves key leaf zero position h =
      let off : position ≢ key = omega (arith, h, div-one key) in ground arith
  subtree_root-update_ne leaves key leaf (suc height) position h =
      ap₂ hasher.hash_branch
        (subtree_root-update_ne leaves key leaf height (2 * position)
          (omega (arith, h, ancestor-suc key height)))
        (subtree_root-update_ne leaves key leaf height (2 * position + 1)
          (omega (arith, h, ancestor-suc key height)))

  pub Siblings-update :
      (leaves : Leaves) (key : Key) (leaf : Leaf) (height : ℕ) (path : List ValueHash)
      → Siblings hasher leaves key height path
      → Siblings hasher (update leaves key leaf) key height path
  Siblings-update leaves key leaf height [] s = tt
  Siblings-update leaves key leaf height (adjacent_hash ∷ rest) s = (
    s.0 ∙ sym (subtree_root-update_ne leaves key leaf height _ (sibling-ne (ancestor key height))),
    Siblings-update leaves key leaf (suc height) rest s.1,
  )
