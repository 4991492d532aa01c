-- ===== src/Tree/Proofs.antt =====
-- What a whole path proves about the tree of a trusted root (crates/merkle_tree/src/hasher/proofs.rs).
use native.Mathlib.Nat.{div-one, div-eq_of_lt}
use eravm_airbender_verifier.Common.{
  ◌-◌, ◌≡◌, ◌≤◌, ◌⊎◌, inl, inr, sym, ap, ◌∙◌, List, [], ◌∷◌, ◌++◌, arith, length, length-append, ok,
  ==→eq, >>=-eq-ok, ensure-eq-ok, ensure-true, missing_value, root_mismatch,
}
use eravm_airbender_verifier.Tree.Types.{Key, ValueHash, tree_depth, TreeEntry, TreeEntryWithProof}
use eravm_airbender_verifier.Tree.Hasher.{
  HashTree, empty_hashes, extend_merkle_path, fold_levels, fold_merkle_path, verify_entry,
}
use eravm_airbender_verifier.Tree.Roots.{
  Leaf, Leaves, IsWord, AreWords, InRange, ReturnsWords, entry_leaf, update, ancestor, subtree_root,
  tree_root, Siblings, PathCollision, level_collides,
}
use eravm_airbender_verifier.Tree.Binding.{
  leaf_injective, empty_hashes-AreWords, fold_levels_binds, fold_levels-subtree_root,
  Siblings-update,
}
use eravm_airbender_verifier.Tree.Trim.{length-empty_hashes}

ancestor-tree_depth : (key : Key) → IsWord key → ancestor key tree_depth ≡ 0
ancestor-tree_depth key h = div-eq_of_lt h

AreWords-append : (xs ys : List ValueHash) → AreWords xs → AreWords ys → AreWords (xs ++ ys)
AreWords-append [] ys a b = b
AreWords-append (x ∷ xs) ys a b = (a.0, AreWords-append xs ys a.1 b)

pub length-extend_merkle_path :
    (hasher : HashTree) (path : List ValueHash)
    → length path ≤ tree_depth
    → length (extend_merkle_path hasher path) ≡ tree_depth
unfolding extend_merkle_path
length-extend_merkle_path hasher path h = omega (
  arith,
  length-append (empty_hashes hasher 0 (tree_depth - length path)) path,
  length-empty_hashes hasher 0 (tree_depth - length path),
)

module _ (hasher : HashTree) where
  pub fold_merkle_path-eq-ok :
      (path : List ValueHash) (entry : TreeEntry) (root : ValueHash)
      → fold_merkle_path hasher path entry ≡ ok root
      → (length path ≤ tree_depth)
        × (fold_levels hasher entry.key 0
              (extend_merkle_path hasher path)
              (hasher.hash_leaf entry.value entry.leaf_index)
            ≡ root)
  unfolding fold_merkle_path
  fold_merkle_path-eq-ok path entry root e = ground arith

  pub fold_merkle_path-short :
      (path : List ValueHash) (entry : TreeEntry)
      → length path ≤ tree_depth
      → fold_merkle_path hasher path entry
        ≡ ok (
            fold_levels hasher entry.key 0
              (extend_merkle_path hasher path)
              (hasher.hash_leaf entry.value entry.leaf_index))
  unfolding fold_merkle_path
  fold_merkle_path-short path entry h = ground arith

-- What a path binds: the leaf at the key, and the siblings on its way.
pub record Binds (hasher : HashTree) (leaves : Leaves) (path : List ValueHash) (entry : TreeEntry)
    : Type 0 where
  pub short : length path ≤ tree_depth
  pub leaf : leaves entry.key ≡ entry_leaf entry
  pub siblings : Siblings hasher leaves entry.key 0 (extend_merkle_path hasher path)

pub update_self : (leaves : Leaves) (key : Key) (leaf : Leaf) → update leaves key leaf key ≡ leaf
update_self leaves key leaf = ground arith

Leaf_ext : (a b : Leaf) → a.leaf_index ≡ b.leaf_index → a.value ≡ b.value → a ≡ b
Leaf_ext a b p q = λ i. record { leaf_index = p i; value = q i }

module _ (hasher : HashTree) (leaves : Leaves) where
  subtree_root-zero :
      (key : Key)
      → subtree_root hasher 0 leaves (ancestor key 0)
        ≡ hasher.hash_leaf (leaves key).value (leaves key).leaf_index
  unfolding subtree_root
  subtree_root-zero key = rw div-one

  tree_root-subtree_root :
      (key : Key)
      → IsWord key
      → tree_root hasher leaves ≡ subtree_root hasher tree_depth leaves (ancestor key tree_depth)
  unfolding tree_root
  tree_root-subtree_root key h =
      ap (subtree_root hasher tree_depth leaves) (sym (ancestor-tree_depth key h))

module _ (hasher : HashTree) (words : ReturnsWords hasher) (leaves : Leaves) where
  extend_merkle_path-AreWords :
      (path : List ValueHash) → AreWords path → AreWords (extend_merkle_path hasher path)
  unfolding extend_merkle_path
  extend_merkle_path-AreWords path wp =
      AreWords-append _ path (empty_hashes-AreWords hasher words 0 _) wp

  -- A path that folds to the root of a tree binds the entry to the tree, or collides with the tree.
  pub fold_merkle_path_lem :
      (path : List ValueHash) (entry : TreeEntry)
      → AreWords path
      → InRange (entry_leaf entry)
      → InRange (leaves entry.key)
      → IsWord entry.key
      → fold_merkle_path hasher path entry ≡ ok (tree_root hasher leaves)
      → PathCollision hasher leaves path entry ⊎ Binds hasher leaves path entry
  fold_merkle_path_lem path entry wp we wl wk e =
      let (short, folds) = fold_merkle_path-eq-ok hasher path entry _ e in
      elim (fold_levels_binds hasher words leaves entry.key 0 tree_depth
        (extend_merkle_path hasher path) _ (extend_merkle_path-AreWords path wp)
        (words.hash_leaf-IsWord _ _) (omega (arith, length-extend_merkle_path hasher path short))
        (folds ∙ tree_root-subtree_root hasher leaves entry.key wk)) [
          | inl c ↦ inl (level_collides c)
          | inr (node, siblings) ↦
              elim (leaf_injective hasher leaves path entry we wl
                (node ∙ subtree_root-zero hasher leaves entry.key)) [
                  | inl c ↦ inl c
                  | inr (value, index) ↦ inr (record {
                    short = short;
                    leaf = Leaf_ext _ _ (sym index) (sym value);
                    siblings = siblings;
                  })
                ]
        ]

  -- A bound path folds to the root of the tree.
  pub fold_merkle_path-Binds :
      (path : List ValueHash) (entry : TreeEntry)
      → IsWord entry.key
      → Binds hasher leaves path entry
      → fold_merkle_path hasher path entry ≡ ok (tree_root hasher leaves)
  fold_merkle_path-Binds path entry wk b =
      let leaf_hash : subtree_root hasher 0 leaves (ancestor entry.key 0)
          ≡ hasher.hash_leaf entry.value entry.leaf_index =
        subtree_root-zero hasher leaves entry.key
        ∙ ap (λ (l : Leaf). hasher.hash_leaf l.value l.leaf_index) b.leaf in
      fold_merkle_path-short hasher path entry b.short
      ∙ ap ok (
          rw (← leaf_hash) (
            fold_levels-subtree_root hasher words leaves entry.key 0 tree_depth
              (extend_merkle_path hasher path)
              (omega (arith, length-extend_merkle_path hasher path b.short)) b.siblings
            ∙ sym (tree_root-subtree_root hasher leaves entry.key wk)))

  -- After a write at its key a bound path binds the new leaf.
  pub Binds-update :
      (path : List ValueHash) (entry next : TreeEntry)
      → next.key ≡ entry.key
      → Binds hasher leaves path entry
      → Binds hasher (update leaves entry.key (entry_leaf next)) path next
  Binds-update path entry next k b = record {
    short = b.short;
    leaf = rw k (update_self leaves entry.key (entry_leaf next));
    siblings = rw k (
        Siblings-update hasher words leaves entry.key (entry_leaf next) 0
          (extend_merkle_path hasher path) b.siblings);
  }

  -- `TreeEntryWithProof::verify` accepts, from the root of a tree, only an entry that the tree holds, or
  -- the fold of the entry's path hashes at some node on its way another input than the tree has there,
  -- to the same hash. The hasher returns words, and the path, the entry, the key and the tree's leaf are
  -- in their machine ranges.
  pub verify_entry_binds :
      (entry : TreeEntryWithProof)
      → AreWords entry.merkle_path
      → InRange (entry_leaf entry.base)
      → InRange (leaves entry.base.key)
      → IsWord entry.base.key
      → verify_entry hasher entry (tree_root hasher leaves) ≡ ok tt
      → PathCollision hasher leaves entry.merkle_path entry.base
        ⊎ (leaves entry.base.key ≡ entry_leaf entry.base)
  unfolding verify_entry
  verify_entry_binds entry wp we wl wk e =
      let (_, folds) = ensure-eq-ok _ missing_value _ e in
      let (root, folded, same) =
        >>=-eq-ok (fold_merkle_path hasher entry.merkle_path entry.base) _ folds in
      let equal : root ≡ tree_root hasher leaves = ==→eq _ _ (ensure-true _ root_mismatch same) in
      elim (fold_merkle_path_lem entry.merkle_path entry.base wp we wl wk (folded ∙ ap ok equal)) [
        | inl c ↦ inl c
        | inr b ↦ inr b.leaf
      ]

  -- An entry that the tree holds is accepted with its path, unless it breaks the rule on missing
  -- values: index 0 goes with value 0.
  pub verify_entry_accepts :
      (entry : TreeEntryWithProof)
      → IsWord entry.base.key
      → Binds hasher leaves entry.merkle_path entry.base
      → (entry.base.leaf_index ≡ 0 → entry.base.value ≡ 0)
      → verify_entry hasher entry (tree_root hasher leaves) ≡ ok tt
  unfolding verify_entry
  verify_entry_accepts entry wk b missing =
      let folds = fold_merkle_path-Binds entry.merkle_path entry.base wk b in
      rw folds (ground arith)
