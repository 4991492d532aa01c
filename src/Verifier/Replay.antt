-- ===== src/Verifier/Replay.antt =====
-- The specification of a batch's storage logs over an abstract tree: what the verifier's two numbers,
-- a root and a next index, stand for.
use eravm_airbender_verifier.Common.{
  ℕ, ◌+◌, ◌%◌, ◌^◌, ◌≡◌, ◌⊎◌, false, List, [], ◌∷◌, ◌==◌, if◌then◌else◌, Outcome, ok, err, panic,
}
use eravm_airbender_verifier.Tree.Types.{H256, Key, TreeLogEntry, TreeEntry}
use eravm_airbender_verifier.Tree.Blake2.{Blake2s}
use eravm_airbender_verifier.Tree.Roots.{
  Leaf, Leaves, empty_leaf, update, IsWord, IsU64, AreWords, InRange,
}
use eravm_airbender_verifier.Witness.Defs.{StorageLogMetadata}
use eravm_airbender_verifier.Storage.Log.{StorageLog, is_write, hashed_key_u256}
use eravm_airbender_verifier.Verifier.Defs.{tree_log_entry_from_witness}

-- The leaf that a write leaves, with the index that is given out, and the next index.
abbrev pub write_leaf : Leaf → H256 → ℕ → Leaf × ℕ
write_leaf leaf value idx =
    if leaf.leaf_index == 0
    then (record { leaf_index = idx; value = value }, (idx + 1) % 2 ^ 64)
    else (record { leaf_index = leaf.leaf_index; value = value }, idx)

module _ (blake2s : Blake2s) where
  -- A read changes nothing. A write sets the value; an empty leaf takes the next index.
  unfoldable pub apply_log : Leaves × ℕ → StorageLog → Leaves × ℕ
  apply_log (leaves, idx) log =
      let key = hashed_key_u256 blake2s log.key in
      let (leaf, next) = write_leaf (leaves key) log.value idx in
      if is_write log then (update leaves key leaf, next) else (leaves, idx)

  unfoldable pub replay : Leaves × ℕ → List StorageLog → Leaves × ℕ
  replay tree [] = tree
  replay tree (log ∷ logs) = replay (apply_log tree log) logs

  -- What the VM read at a key is what the tree holds there; of an empty leaf it read nothing.
  abbrev pub ReadAgrees : Leaves → StorageLog → Type 0
  ReadAgrees leaves log =
      is_write log ≡ false
      → (leaves (hashed_key_u256 blake2s log.key) ≡ empty_leaf)
        ⊎ (log.value ≡ (leaves (hashed_key_u256 blake2s log.key)).value)

  -- Every read of the batch agrees with the tree as it is at that point.
  abbrev pub ReadsAgree : Leaves × ℕ → List StorageLog → Type 0
  ReadsAgree tree [] = Unit
  ReadsAgree tree (log ∷ logs) = ReadAgrees tree.0 log × ReadsAgree (apply_log tree log) logs

-- The ranges of the machine types of a witness entry, a log and a tree.
pub record MetaInRange (meta : StorageLogMetadata) : Type 0 where
  pub paths_AreWords : AreWords meta.merkle_paths
  pub key_IsWord : IsWord meta.leaf_hashed_key
  pub index_IsU64 : IsU64 meta.leaf_enumeration_index
  pub value_IsWord : IsWord meta.value_read

abbrev pub MetasInRange : List StorageLogMetadata → Type 0
MetasInRange [] = Unit
MetasInRange (meta ∷ metas) = MetaInRange meta × MetasInRange metas

abbrev pub LogsInRange : List StorageLog → Type 0
LogsInRange [] = Unit
LogsInRange (log ∷ logs) = IsWord log.value × LogsInRange logs

pub record TreeInRange (tree : Leaves × ℕ) : Type 0 where
  pub leaves_InRange : (key : Key) → InRange (tree.0 key)
  pub next_IsU64 : IsU64 tree.1

-- The leaf that a classified entry claims.
abbrev pub leaf_of : TreeLogEntry → Leaf
leaf_of TreeLogEntry.inserted = empty_leaf
leaf_of TreeLogEntry.read_missing_key = empty_leaf
leaf_of (TreeLogEntry.updated leaf_index value) = record { leaf_index = leaf_index; value = value }
leaf_of (TreeLogEntry.read leaf_index value) = record { leaf_index = leaf_index; value = value }

-- The leaf that a witness entry claims, where it is well formed.
abbrev pub leaf_of_outcome : Outcome TreeLogEntry → Leaf
leaf_of_outcome (ok base) = leaf_of base
leaf_of_outcome (err e) = empty_leaf
leaf_of_outcome (panic p) = empty_leaf

abbrev pub claimed_leaf : StorageLogMetadata → Leaf
claimed_leaf meta = leaf_of_outcome (tree_log_entry_from_witness meta)

-- The leaf that a witness entry claims, at the entry's key.
abbrev pub claimed_entry : StorageLogMetadata → TreeEntry
claimed_entry meta = record {
  key = meta.leaf_hashed_key;
  value = (claimed_leaf meta).value;
  leaf_index = (claimed_leaf meta).leaf_index;
}

-- Every entry claims the leaf that the tree holds at its key at that point of the batch.
abbrev pub ClaimsHold : Blake2s → Leaves × ℕ → List StorageLogMetadata → List StorageLog → Type 0
ClaimsHold blake2s tree [] logs = Unit
ClaimsHold blake2s tree (meta ∷ metas) [] = Unit
ClaimsHold blake2s tree (meta ∷ metas) (log ∷ logs) =
    (tree.0 meta.leaf_hashed_key ≡ claimed_leaf meta)
    × ClaimsHold blake2s (apply_log blake2s tree log) metas logs
