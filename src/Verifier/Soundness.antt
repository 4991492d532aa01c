-- ===== src/Verifier/Soundness.antt =====
-- The streaming pass against the specification: from the root of a tree it accepts only what the VM's
-- logs do to that tree.
use mathlib.Core.Path.{subst}
use eravm_airbender_verifier.Common.{
  ℕ, ◌≡◌, ◌≢◌, ◌⊎◌, inl, inr, sym, ap, ◌∙◌, List, [], ◌∷◌, ok, arith,
}
use eravm_airbender_verifier.Tree.Types.{ValueHash, TreeInstruction, instruction_key, TreeLogEntry}
use eravm_airbender_verifier.Tree.Blake2.{Blake2s, blake2_hasher}
use eravm_airbender_verifier.Tree.Roots.{
  Leaves, IsWord, InRange, ReturnsWords, tree_root, entry_leaf, PathCollision,
}
use eravm_airbender_verifier.Tree.Hasher.{prev_entry}
use eravm_airbender_verifier.Witness.Defs.{StorageLogMetadata}
use eravm_airbender_verifier.Storage.Log.{StorageLog, hashed_key_u256}
use eravm_airbender_verifier.Verifier.Defs.{tree_log_entry_from_witness, map_log_tree}
use eravm_airbender_verifier.Verifier.Accepts.{IsStep, Accepts}
use eravm_airbender_verifier.Verifier.Oracle.{proof_of}
use eravm_airbender_verifier.Verifier.Replay.{
  apply_log, replay, ReadAgrees, ReadsAgree, MetaInRange, MetasInRange, LogsInRange, TreeInRange,
  leaf_of, leaf_of_outcome, claimed_leaf, claimed_entry, ClaimsHold,
}
use eravm_airbender_verifier.Verifier.Step.{after, verify_op_sound, prev_entry-leaf, prev_entry-key}

-- An entry for an existing leaf has an index.
abbrev pub HasIndex : TreeLogEntry → Type 0
HasIndex (TreeLogEntry.updated leaf_index value) = leaf_index ≢ 0
HasIndex (TreeLogEntry.read leaf_index value) = leaf_index ≢ 0
HasIndex TreeLogEntry.inserted = Unit
HasIndex TreeLogEntry.read_missing_key = Unit

pub classified-HasIndex :
    (meta : StorageLogMetadata) (base : TreeLogEntry)
    → tree_log_entry_from_witness meta ≡ ok base
    → HasIndex base
unfolding tree_log_entry_from_witness
classified-HasIndex meta TreeLogEntry.inserted e = tt
classified-HasIndex meta TreeLogEntry.read_missing_key e = tt
classified-HasIndex meta (TreeLogEntry.updated leaf_index value) e = ground arith
classified-HasIndex meta (TreeLogEntry.read leaf_index value) e = ground arith

classified-InRange :
    (meta : StorageLogMetadata) (base : TreeLogEntry)
    → MetaInRange meta
    → tree_log_entry_from_witness meta ≡ ok base
    → InRange (leaf_of base)
unfolding tree_log_entry_from_witness
classified-InRange meta TreeLogEntry.inserted r e = omega arith
classified-InRange meta TreeLogEntry.read_missing_key r e = omega arith
classified-InRange meta (TreeLogEntry.updated leaf_index value) r e = ground arith
classified-InRange meta (TreeLogEntry.read leaf_index value) r e = ground arith

module _ (blake2s : Blake2s) where
  mapped-key :
      (key idx next : ℕ) (log : StorageLog) (base : TreeLogEntry) (instruction : TreeInstruction)
      → map_log_tree key log base idx ≡ ok (instruction, next)
      → instruction_key instruction ≡ key
  unfolding map_log_tree instruction_key
  mapped-key key idx next log TreeLogEntry.inserted instruction e = ground arith
  mapped-key key idx next log _ instruction e = ground arith

  mapped-apply_log :
      (leaves : Leaves) (idx next : ℕ) (log : StorageLog) (base : TreeLogEntry)
      (instruction : TreeInstruction)
      → HasIndex base
      → leaves (hashed_key_u256 blake2s log.key) ≡ leaf_of base
      → map_log_tree (hashed_key_u256 blake2s log.key) log base idx ≡ ok (instruction, next)
      → ((after leaves instruction, next) ≡ apply_log blake2s (leaves, idx) log)
        × ReadAgrees blake2s leaves log
  unfolding map_log_tree apply_log
  mapped-apply_log leaves idx next log TreeLogEntry.inserted instruction h l e =
      (ground arith, ground arith)
  mapped-apply_log leaves idx next log _ instruction h l e = (ground arith, ground arith)

  apply_log-InRange :
      (tree : Leaves × ℕ) (log : StorageLog)
      → IsWord log.value
      → TreeInRange tree
      → TreeInRange (apply_log blake2s tree log)
  unfolding apply_log
  apply_log-InRange (leaves, idx) log w r = record {
    leaves_InRange = λ key.
        ground (arith, r.leaves_InRange key, r.leaves_InRange (hashed_key_u256 blake2s log.key));
    next_IsU64 = ground arith;
  }

  -- The conclusion of the soundness theorem.
  pub record IsReplayed (tree : Leaves × ℕ) (metas : List StorageLogMetadata)
      (logs : List StorageLog) (result : ValueHash × ℕ) : Type 0 where
    pub root : result.0 ≡ tree_root (blake2_hasher blake2s) (replay blake2s tree logs).0
    pub next_index : result.1 ≡ (replay blake2s tree logs).1
    pub reads : ReadsAgree blake2s tree logs
    pub claims : ClaimsHold blake2s tree metas logs

  -- At one entry of the batch, the entries before it agreeing with the tree at their point, the fold of
  -- the entry's path collides with the tree that the logs before it have left.
  pub data BatchCollision : Leaves × ℕ → List StorageLogMetadata → List StorageLog → Type 0 where
    at_entry :
        {tree : Leaves × ℕ} {meta : StorageLogMetadata} {log : StorageLog}
        {metas : List StorageLogMetadata} {logs : List StorageLog}
        → PathCollision (blake2_hasher blake2s) tree.0 meta.merkle_paths (claimed_entry meta)
        → BatchCollision tree (meta ∷ metas) (log ∷ logs)
    after_entry :
        {tree : Leaves × ℕ} {meta : StorageLogMetadata} {log : StorageLog}
        {metas : List StorageLogMetadata} {logs : List StorageLog}
        → tree.0 meta.leaf_hashed_key ≡ claimed_leaf meta
        → ReadAgrees blake2s tree.0 log
        → meta.root_hash ≡ tree_root (blake2_hasher blake2s) (apply_log blake2s tree log).0
        → BatchCollision (apply_log blake2s tree log) metas logs
        → BatchCollision tree (meta ∷ metas) (log ∷ logs)

  module _ (words : ReturnsWords (blake2_hasher blake2s)) where
    -- The entry whose path is folded is the one that the witness entry claims.
    prev_entry-claimed :
        (meta : StorageLogMetadata) (base : TreeLogEntry) (instruction : TreeInstruction)
        → tree_log_entry_from_witness meta ≡ ok base
        → instruction_key instruction ≡ meta.leaf_hashed_key
        → prev_entry base instruction ≡ claimed_entry meta
    prev_entry-claimed meta base instruction classified k =
        let key = prev_entry-key base instruction ∙ k in
        let leaf : entry_leaf (prev_entry base instruction) ≡ claimed_leaf meta =
          prev_entry-leaf base instruction ∙ ap leaf_of_outcome (sym classified) in
        λ i. record { key = key i; value = (leaf i).value; leaf_index = (leaf i).leaf_index }

    step_sound :
        (meta : StorageLogMetadata) (log : StorageLog) (leaves : Leaves) (idx next : ℕ)
        (base : TreeLogEntry) (instruction : TreeInstruction)
        → MetaInRange meta
        → TreeInRange (leaves, idx)
        → IsStep blake2s meta log idx
            (tree_root (blake2_hasher blake2s) leaves)
            base
            instruction
            next
        → PathCollision (blake2_hasher blake2s) leaves meta.merkle_paths (claimed_entry meta)
          ⊎ ((meta.root_hash
                ≡ tree_root (blake2_hasher blake2s) (apply_log blake2s (leaves, idx) log).0)
              × (next ≡ (apply_log blake2s (leaves, idx) log).1)
              × ReadAgrees blake2s leaves log
              × (leaves meta.leaf_hashed_key ≡ claimed_leaf meta))
    unfolding proof_of
    step_sound meta log leaves idx next base instruction rm rt s =
        let k = mapped-key meta.leaf_hashed_key idx next log base instruction s.mapped in
        elim (verify_op_sound (blake2_hasher blake2s) words leaves (proof_of meta base) instruction
          rm.paths_AreWords (classified-InRange meta base rm s.classified) (rt.leaves_InRange _)
          (rw k rm.key_IsWord) s.verified) [
            | inl c ↦ inl (
                subst (PathCollision (blake2_hasher blake2s) leaves meta.merkle_paths)
                  (prev_entry-claimed meta base instruction s.classified k) c)
            | inr (leaf, root) ↦
                let here : leaves meta.leaf_hashed_key ≡ leaf_of base = ap leaves (sym k) ∙ leaf in
                let (applied, reads) =
                  mapped-apply_log leaves idx next log base instruction
                    (classified-HasIndex meta base s.classified) (ap leaves (sym s.bound) ∙ here)
                    (rw s.bound at s.mapped) in
                inr (
                  root ∙ ap (λ (t : Leaves × ℕ). tree_root (blake2_hasher blake2s) t.0) applied,
                  ap (λ (t : Leaves × ℕ). t.1) applied,
                  reads,
                  here ∙ ap leaf_of_outcome (sym s.classified),
                )
          ]

    pub Accepts-sound :
        (metas : List StorageLogMetadata) (logs : List StorageLog) (leaves : Leaves) (idx : ℕ)
        (result : ValueHash × ℕ)
        → MetasInRange metas
        → LogsInRange logs
        → TreeInRange (leaves, idx)
        → Accepts blake2s metas logs idx (tree_root (blake2_hasher blake2s) leaves) result
        → BatchCollision (leaves, idx) metas logs ⊎ IsReplayed (leaves, idx) metas logs result
    unfolding replay
    Accepts-sound [] [] leaves idx result rm rl rt a = inr (record {
      root = ap (λ (t : ValueHash × ℕ). t.0) a;
      next_index = ap (λ (t : ValueHash × ℕ). t.1) a;
      reads = tt;
      claims = tt;
    })
    Accepts-sound [] (log ∷ logs) leaves idx result rm rl rt a = absurd a
    Accepts-sound (meta ∷ metas) [] leaves idx result rm rl rt a = absurd a
    Accepts-sound (meta ∷ metas) (log ∷ logs) leaves idx result rm rl rt
          (base, instruction, next, s, a) =
        let tree = apply_log blake2s (leaves, idx) log in
        elim (step_sound meta log leaves idx next base instruction rm.0 rt s) [
          | inl c ↦ inl (at_entry c)
          | inr (root, index, reads, claim) ↦
              let rest = subst (λ i. Accepts blake2s metas logs i meta.root_hash result) index a in
              let above = subst (λ h. Accepts blake2s metas logs tree.1 h result) root rest in
              elim (Accepts-sound metas logs tree.0 tree.1 result rm.1 rl.1
                (apply_log-InRange (leaves, idx) log rl.0 rt) above) [
                  | inl c ↦ inl (after_entry claim reads root c)
                  | inr r ↦ inr (record {
                    root = r.root;
                    next_index = r.next_index;
                    reads = (reads, r.reads);
                    claims = (claim, r.claims);
                  })
                ]
        ]
