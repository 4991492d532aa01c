-- ===== src/Verifier/Step.antt =====
-- One accepted entry: its leaf is the tree's, and its claimed root is that of the tree after its log.
use mathlib.Core.Path.{subst}
use eravm_airbender_verifier.Common.{
  ◌≡◌, ◌⊎◌, inl, inr, refl, sym, ap, ◌∙◌, List, ◌==◌, ok, >>=-eq-ok, ensure-eq-ok, ensure-true,
  ok-injective, ==→eq, path_too_long, prev_hash_mismatch, next_hash_mismatch, op_root_mismatch,
}
use eravm_airbender_verifier.Tree.Types.{
  ValueHash, TreeInstruction, instruction_key, new_entry, empty_entry, TreeLogEntry,
  TreeLogEntryWithProof,
}
use eravm_airbender_verifier.Tree.Hasher.{
  HashTree, fold_merkle_path, prev_entry, check_op_root, check_next_hash, verify_op,
}
use eravm_airbender_verifier.Tree.Roots.{
  Leaves, IsWord, AreWords, InRange, ReturnsWords, entry_leaf, update, tree_root, PathCollision,
}
use eravm_airbender_verifier.Tree.Proofs.{
  Binds, fold_merkle_path_lem, fold_merkle_path-Binds, Binds-update,
}
use eravm_airbender_verifier.Verifier.Replay.{leaf_of}

-- What an accepted operation has passed.
pub record Passed (hasher : HashTree) (root : ValueHash) (op : TreeLogEntryWithProof)
    (instruction : TreeInstruction) : Type 0 where
  pub op_root : check_op_root instruction op.base op.root_hash root ≡ ok tt
  pub prev : fold_merkle_path hasher op.merkle_path (prev_entry op.base instruction) ≡ ok root
  pub next : check_next_hash hasher instruction op.merkle_path op.root_hash ≡ ok tt

pub verify_op-Passed :
    (hasher : HashTree) (root : ValueHash) (op : TreeLogEntryWithProof)
    (instruction : TreeInstruction) {r : ValueHash}
    → verify_op hasher root op instruction ≡ ok r
    → Passed hasher root op instruction
unfolding verify_op
verify_op-Passed hasher root op instruction e =
    let (_, e₁) = ensure-eq-ok _ path_too_long _ e in
    let (_, op_root, e₂) = >>=-eq-ok (check_op_root instruction op.base op.root_hash root) _ e₁ in
    let (prev, folded, e₃) =
      >>=-eq-ok (fold_merkle_path hasher op.merkle_path (prev_entry op.base instruction)) _ e₂ in
    let (same, e₄) = ensure-eq-ok (prev == root) prev_hash_mismatch _ e₃ in
    let (_, next, _) =
      >>=-eq-ok (check_next_hash hasher instruction op.merkle_path op.root_hash) _ e₄ in
    record { op_root = op_root; prev = folded ∙ ap ok (==→eq _ _ same); next = next }

pub prev_entry-leaf :
    (base : TreeLogEntry) (instruction : TreeInstruction)
    → entry_leaf (prev_entry base instruction) ≡ leaf_of base
unfolding prev_entry new_entry empty_entry
prev_entry-leaf TreeLogEntry.inserted instruction = refl
prev_entry-leaf _ instruction = refl

pub prev_entry-key :
    (base : TreeLogEntry) (instruction : TreeInstruction)
    → (prev_entry base instruction).key ≡ instruction_key instruction
unfolding prev_entry new_entry empty_entry
prev_entry-key TreeLogEntry.inserted instruction = refl
prev_entry-key _ instruction = refl

-- The tree after an instruction.
abbrev pub after : Leaves → TreeInstruction → Leaves
after leaves (TreeInstruction.read key) = leaves
after leaves (TreeInstruction.write entry) = update leaves entry.key (entry_leaf entry)

module _ (hasher : HashTree) (words : ReturnsWords hasher) (leaves : Leaves) where
  root_after :
      (path : List ValueHash) (base : TreeLogEntry) (op_root : ValueHash)
      (instruction : TreeInstruction)
      → IsWord (instruction_key instruction)
      → Binds hasher leaves path (prev_entry base instruction)
      → check_op_root instruction base op_root (tree_root hasher leaves) ≡ ok tt
      → check_next_hash hasher instruction path op_root ≡ ok tt
      → op_root ≡ tree_root hasher (after leaves instruction)
  unfolding check_op_root check_next_hash instruction_key
  root_after path base op_root (TreeInstruction.read key) wk b c n =
      let (same, _) = ensure-eq-ok (op_root == tree_root hasher leaves) op_root_mismatch _ c in
      ==→eq _ _ same
  root_after path base op_root (TreeInstruction.write entry) wk b c n =
      let k = sym (prev_entry-key base (TreeInstruction.write entry)) in
      let (next_hash, folded, same) = >>=-eq-ok (fold_merkle_path hasher path entry) _ n in
      let here : Binds hasher (update leaves entry.key (entry_leaf entry)) path entry =
        subst (λ q. Binds hasher (update leaves q (entry_leaf entry)) path entry) (sym k)
          (Binds-update hasher words leaves path _ entry k b) in
      let folds = fold_merkle_path-Binds hasher words _ path entry wk here in
      sym (==→eq next_hash op_root (ensure-true _ next_hash_mismatch same))
      ∙ ok-injective (sym folded ∙ folds)

  -- An operation that passes from the root of a tree claims the tree's leaf at its key, and leaves
  -- the root of the tree after its instruction; or the fold of its path collides with the tree.
  pub verify_op_sound :
      (op : TreeLogEntryWithProof) (instruction : TreeInstruction) {r : ValueHash}
      → AreWords op.merkle_path
      → InRange (leaf_of op.base)
      → InRange (leaves (instruction_key instruction))
      → IsWord (instruction_key instruction)
      → verify_op hasher (tree_root hasher leaves) op instruction ≡ ok r
      → PathCollision hasher leaves op.merkle_path (prev_entry op.base instruction)
        ⊎ ((leaves (instruction_key instruction) ≡ leaf_of op.base)
            × (op.root_hash ≡ tree_root hasher (after leaves instruction)))
  verify_op_sound op instruction wp wb wl wk e =
      let passed = verify_op-Passed hasher (tree_root hasher leaves) op instruction e in
      let key = prev_entry-key op.base instruction in
      let leaf = prev_entry-leaf op.base instruction in
      elim (fold_merkle_path_lem hasher words leaves op.merkle_path (prev_entry op.base instruction)
        wp (rw leaf wb) (rw key wl) (rw key wk) passed.prev) [
          | inl c ↦ inl c
          | inr b ↦ inr (
            sym (ap leaves key) ∙ b.leaf ∙ leaf,
            root_after op.merkle_path op.base op.root_hash instruction wk b passed.op_root
                passed.next,
          )
        ]
