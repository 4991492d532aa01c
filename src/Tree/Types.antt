-- ===== src/Tree/Types.antt =====
-- crates/merkle_tree/src/types/mod.rs: the entries, instructions and log entries of the tree.
-- A 256-bit word (`H256`, `U256`) is the number that its bytes stand for, most significant first.
use eravm_airbender_verifier.Common.{
  ℕ, Bool, true, false, List, [], ◌∷◌, Option, none, some, ◌==◌, ◌&&◌,
}

abbrev pub H256 : Type 0
H256 = ℕ

abbrev pub Key : Type 0
Key = ℕ

abbrev pub ValueHash : Type 0
ValueHash = H256

-- `KEY_SIZE * 8`
abbrev pub tree_depth : ℕ
tree_depth = 256

pub record TreeEntry : Type 0 where
  pub key : Key
  pub value : ValueHash
  pub leaf_index : ℕ

pub data TreeInstruction : Type 0 where
  read : Key → TreeInstruction
  write : TreeEntry → TreeInstruction

unfoldable pub write_instruction : Key → ℕ → ValueHash → TreeInstruction
write_instruction key leaf_index value =
    TreeInstruction.write (record { key = key; value = value; leaf_index = leaf_index })

unfoldable pub instruction_key : TreeInstruction → Key
instruction_key (TreeInstruction.read key) = key
instruction_key (TreeInstruction.write entry) = entry.key

unfoldable pub new_entry : Key → ℕ → ValueHash → TreeEntry
new_entry key leaf_index value = record { key = key; value = value; leaf_index = leaf_index }

unfoldable pub empty_entry : Key → TreeEntry
empty_entry key = record { key = key; value = 0; leaf_index = 0 }

unfoldable pub is_empty : TreeEntry → Bool
is_empty entry = entry.leaf_index == 0 && entry.value == 0

pub record TreeEntryWithProof : Type 0 where
  pub base : TreeEntry
  pub merkle_path : List ValueHash

-- `updated` has the leaf index and the previous value, `read` the leaf index and the value.
pub data TreeLogEntry : Type 0 where
  inserted : TreeLogEntry
  updated : ℕ → ValueHash → TreeLogEntry
  read : ℕ → ValueHash → TreeLogEntry
  read_missing_key : TreeLogEntry

unfoldable pub is_read : TreeLogEntry → Bool
is_read (TreeLogEntry.read leaf_index value) = true
is_read TreeLogEntry.read_missing_key = true
is_read TreeLogEntry.inserted = false
is_read (TreeLogEntry.updated leaf_index value) = false

pub record TreeLogEntryWithProof : Type 0 where
  pub base : TreeLogEntry
  pub merkle_path : List ValueHash
  pub root_hash : ValueHash

pub record BlockOutputWithProofs : Type 0 where
  pub logs : List TreeLogEntryWithProof
  pub leaf_count : ℕ

-- `self.logs.last()?.root_hash`
unfoldable pub last_root_hash : List TreeLogEntryWithProof → Option ValueHash
last_root_hash [] = none
last_root_hash (op ∷ []) = some op.root_hash
last_root_hash (op ∷ next ∷ rest) = last_root_hash (next ∷ rest)

unfoldable pub output_root_hash : BlockOutputWithProofs → Option ValueHash
unfolding last_root_hash
output_root_hash output = last_root_hash output.logs
