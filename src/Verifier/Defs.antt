-- ===== src/Verifier/Defs.antt =====
-- crates/airbender_verifier/src/merkle_witness.rs and lib.rs: the interpretation of a witness entry,
-- the storage view, and the instruction that a VM log becomes.
use eravm_airbender_verifier.Common.{
  ℕ, zero, suc, ◌+◌, ◌%◌, ◌^◌, Bool, true, false, Option, none, some, List, [], ◌∷◌, ◌==◌, ◌&&◌,
  if◌then◌else◌, Outcome, ok, err, ensure, ◌>>=◌, ◌>>◌, conflicting_prestate,
  read_marked_first_write, repeated_write_index_zero, map_log_tree_failed,
}
use eravm_airbender_verifier.Bytes.{be_value}
use eravm_airbender_verifier.Tree.Types.{
  H256, Key, TreeInstruction, write_instruction, TreeLogEntry,
}
use eravm_airbender_verifier.Witness.Defs.{StorageLogMetadata, leaf_hashed_key_array}
use eravm_airbender_verifier.Storage.Log.{StorageLog, is_write}

-- `empty` has `is_write`; `existing` has `is_write`, the index and the value.
pub data WitnessLeaf : Type 0 where
  empty : Bool → WitnessLeaf
  existing : Bool → ℕ → H256 → WitnessLeaf

classify_read : Bool → ℕ → H256 → Outcome WitnessLeaf
classify_read true index value = err read_marked_first_write
classify_read false zero value = ok (empty false)
classify_read false (suc n) value = ok (existing false (suc n) value)

classify_write : Bool → ℕ → H256 → Outcome WitnessLeaf
classify_write true index value = ok (empty true)
classify_write false zero value = err repeated_write_index_zero
classify_write false (suc n) value = ok (existing true (suc n) value)

unfoldable pub classify_witness_leaf : StorageLogMetadata → Outcome WitnessLeaf
unfolding classify_read classify_write
classify_witness_leaf log =
    if log.is_write
    then classify_write log.first_write log.leaf_enumeration_index log.value_read
    else classify_read log.first_write log.leaf_enumeration_index log.value_read

-- A slot's pre-state: nothing, or its value and index.
abbrev pub PreState : Type 0
PreState = Option (H256 × ℕ)

unfoldable pub prestate_of : WitnessLeaf → PreState
prestate_of (empty write) = none
prestate_of (existing write index value) = some (value, index)

abbrev pub same_prestate : PreState → PreState → Bool
same_prestate none none = true
same_prestate none (some b) = false
same_prestate (some a) none = false
same_prestate (some a) (some b) = a.0 == b.0 && a.1 == b.1

-- The `BTreeMap` from hashed keys, as an association list.
abbrev pub View : Type 0
View = List (H256 × PreState)

unfoldable pub lookup : H256 → View → Option PreState
lookup key [] = none
lookup key ((k, s) ∷ view) = if k == key then some s else lookup key view

-- The match on the map's entry.
unfoldable pub enter : View → H256 → PreState → Option PreState → Outcome View
enter view key prestate none = ok ((key, prestate) ∷ view)
enter view key prestate (some old) =
    ensure (same_prestate old prestate) conflicting_prestate >> ok view

-- The hashed key as a 256-bit word: the bytes of the key, least significant first.
unfoldable pub slot_of : StorageLogMetadata → H256
unfolding leaf_hashed_key_array
slot_of log = be_value (leaf_hashed_key_array log)

unfoldable pub build_view_from : View → List StorageLogMetadata → Outcome View
unfolding lookup enter slot_of classify_witness_leaf prestate_of
build_view_from view [] = ok view
build_view_from view (log ∷ logs) = do
  leaf ← classify_witness_leaf log
  view' ← enter view (slot_of log) (prestate_of leaf) (lookup (slot_of log) view)
  build_view_from view' logs

unfoldable pub build_view_from_merkle_paths : List StorageLogMetadata → Outcome View
unfolding build_view_from
build_view_from_merkle_paths merkle_paths = build_view_from [] merkle_paths

unfoldable pub entry_of_leaf : WitnessLeaf → TreeLogEntry
entry_of_leaf (empty false) = TreeLogEntry.read_missing_key
entry_of_leaf (empty true) = TreeLogEntry.inserted
entry_of_leaf (existing false index value) = TreeLogEntry.read index value
entry_of_leaf (existing true index value) = TreeLogEntry.updated index value

unfoldable pub tree_log_entry_from_witness : StorageLogMetadata → Outcome TreeLogEntry
unfolding classify_witness_leaf entry_of_leaf
tree_log_entry_from_witness log = do leaf ← classify_witness_leaf log; ok (entry_of_leaf leaf)

map_write : Key → StorageLog → TreeLogEntry → ℕ → Outcome (TreeInstruction × ℕ)
map_write key log (TreeLogEntry.updated leaf_index previous) idx =
    ok (write_instruction key leaf_index log.value, idx)
map_write key log TreeLogEntry.inserted idx =
    ok (write_instruction key idx log.value, (idx + 1) % 2 ^ 64)
map_write key log (TreeLogEntry.read leaf_index value) idx = err map_log_tree_failed
map_write key log TreeLogEntry.read_missing_key idx = err map_log_tree_failed

map_read : Key → StorageLog → TreeLogEntry → ℕ → Outcome (TreeInstruction × ℕ)
map_read key log (TreeLogEntry.read leaf_index value) idx =
    ensure (log.value == value) map_log_tree_failed >> ok (TreeInstruction.read key, idx)
map_read key log TreeLogEntry.read_missing_key idx = ok (TreeInstruction.read key, idx)
map_read key log TreeLogEntry.inserted idx = err map_log_tree_failed
map_read key log (TreeLogEntry.updated leaf_index previous) idx = err map_log_tree_failed

-- The instruction, and the next index: a `u64`, which wraps in the release profile.
unfoldable pub map_log_tree : Key → StorageLog → TreeLogEntry → ℕ → Outcome (TreeInstruction × ℕ)
unfolding map_write map_read is_write write_instruction
map_log_tree key log entry idx =
    if is_write log then map_write key log entry idx else map_read key log entry idx
