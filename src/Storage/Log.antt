-- ===== src/Storage/Log.antt =====
-- crates/types/src/storage: storage keys and storage logs.
use eravm_airbender_verifier.Common.{ℕ, Bool, true, false, List, ◌++◌, replicate, if◌then◌else◌}
use eravm_airbender_verifier.Bytes.{be_bytes, be_value, le_value}
use eravm_airbender_verifier.Tree.Types.{H256}
use eravm_airbender_verifier.Tree.Blake2.{Blake2s}

-- `StorageKey`, with the address of its `AccountTreeId`
pub record StorageKey : Type 0 where
  pub address : ℕ
  pub key : H256

module _ (blake2s : Blake2s) where
  unfoldable pub raw_hashed_key : ℕ → H256 → List ℕ
  raw_hashed_key address key =
      be_bytes 32 (blake2s.digest (replicate 12 0 ++ (be_bytes 20 address ++ be_bytes 32 key)))

  unfoldable pub hashed_key : StorageKey → H256
  hashed_key key = be_value (raw_hashed_key key.address key.key)

  unfoldable pub hashed_key_u256 : StorageKey → ℕ
  hashed_key_u256 key = le_value (raw_hashed_key key.address key.key)

pub data StorageLogKind : Type 0 where
  read initial_write repeated_write : StorageLogKind

pub record StorageLog : Type 0 where
  pub kind : StorageLogKind
  pub key : StorageKey
  pub value : H256

pub record StorageLogWithPreviousValue : Type 0 where
  pub log : StorageLog
  pub previous_value : H256

unfoldable pub new_read_log : StorageKey → H256 → StorageLog
new_read_log key value = record { kind = read; key = key; value = value }

unfoldable pub new_write_log : StorageKey → H256 → StorageLog
new_write_log key value = record { kind = repeated_write; key = key; value = value }

abbrev pub is_write_kind : StorageLogKind → Bool
is_write_kind read = false
is_write_kind initial_write = true
is_write_kind repeated_write = true

unfoldable pub is_write : StorageLog → Bool
is_write log = is_write_kind log.kind

-- The fields of a `LogQuery` that a storage log is made of.
pub record LogQuery : Type 0 where
  pub address : ℕ
  pub key : ℕ
  pub read_value : ℕ
  pub written_value : ℕ
  pub rw_flag : Bool
  pub rollback : Bool

unfoldable pub from_log_query : LogQuery → StorageLog
unfolding new_read_log new_write_log
from_log_query log =
    let key : StorageKey = record { address = log.address; key = log.key } in
    if log.rw_flag
    then (if log.rollback
        then new_write_log key log.read_value
        else new_write_log key log.written_value)
    else new_read_log key log.read_value
