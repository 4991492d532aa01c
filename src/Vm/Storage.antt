-- ===== src/Vm/Storage.antt =====
-- crates/vm_interface/src/storage: the trait `ReadStorage`, the snapshot that the guest reads from
-- (snapshot.rs), and the caching view that the VM reads and writes through (view.rs).
use eravm_airbender_verifier.Common.{
  ℕ, ◌+◌, ◌^◌, ◌%◌, Bool, true, Option, none, some, ◌==◌, if◌then◌else◌, Outcome, ok, panic, ◌>>=◌,
  unknown_storage_slot,
}
use eravm_airbender_verifier.Tree.Types.{H256}
use eravm_airbender_verifier.Tree.Blake2.{Blake2s}
use eravm_airbender_verifier.Storage.Log.{StorageKey, hashed_key}
use eravm_airbender_verifier.Vm.Dedup.{KeyMap, insert_at}
use eravm_airbender_verifier.Verifier.Defs.{View, PreState, lookup}

-- The trait's methods, of a storage that they do not change.
pub record ReadStorage : Type 0 where
  pub read_value : StorageKey → Outcome H256
  pub is_write_initial : StorageKey → Outcome Bool
  pub get_enumeration_index : StorageKey → Outcome (Option ℕ)

-- `StorageSnapshot`'s map from hashed keys, as `build_view_from_merkle_paths` makes it.
module _ (blake2s : Blake2s) where
  slot : View → StorageKey → Outcome PreState
  slot storage key = go (lookup (hashed_key blake2s key) storage)
    where
      go : Option PreState → Outcome PreState
      go none = panic unknown_storage_slot
      go (some entry) = ok entry

  abbrev pub value_of : PreState → H256
  value_of none = 0
  value_of (some entry) = entry.0

  abbrev pub is_initial : PreState → Bool
  is_initial none = true
  is_initial (some entry) = entry.1 == 0

  abbrev pub index_of : PreState → Option ℕ
  index_of none = none
  index_of (some entry) = if entry.1 == 0 then none else some entry.1

  unfoldable pub snapshot_storage : View → ReadStorage
  unfolding slot
  snapshot_storage storage = record {
    read_value = λ key. slot storage key >>= λ entry. ok (value_of entry);
    is_write_initial = λ key. slot storage key >>= λ entry. ok (is_initial entry);
    get_enumeration_index = λ key. slot storage key >>= λ entry. ok (index_of entry);
  }

-- `StorageView` without its handle: modified keys, the two caches, and the count of misses.
pub record StorageView : Type 0 where
  pub modified_storage_keys : KeyMap H256
  pub read_storage_keys : KeyMap H256
  pub initial_writes : KeyMap Bool
  pub storage_invocations_missed : ℕ

unfoldable pub new_view : StorageView
new_view = record {
  modified_storage_keys = λ k. none;
  read_storage_keys = λ k. none;
  initial_writes = λ k. none;
  storage_invocations_missed = 0;
}

abbrev pub or_else {ℓ} : {A : Type ℓ} → Option A → Option A → Option A
or_else none o = o
or_else (some a) o = some a

abbrev pub with_initial : StorageView → StorageKey → Bool → StorageView
with_initial view key initial = record {
  modified_storage_keys = view.modified_storage_keys;
  read_storage_keys = view.read_storage_keys;
  initial_writes = insert_at key initial view.initial_writes;
  storage_invocations_missed = view.storage_invocations_missed;
}

abbrev pub with_written : StorageView → StorageKey → H256 → StorageView
with_written view key value = record {
  modified_storage_keys = insert_at key value view.modified_storage_keys;
  read_storage_keys = view.read_storage_keys;
  initial_writes = view.initial_writes;
  storage_invocations_missed = view.storage_invocations_missed;
}

module _ (storage_handle : ReadStorage) where
  unfoldable pub miss : StorageView → StorageKey → H256 → StorageView
  miss view key value = record {
    modified_storage_keys = view.modified_storage_keys;
    read_storage_keys = insert_at key value view.read_storage_keys;
    initial_writes = view.initial_writes;
    storage_invocations_missed = (view.storage_invocations_missed + 1) % 2 ^ 64;
  }

  unfoldable pub get_cached : StorageView → StorageKey → Option H256 → Outcome (H256 × StorageView)
  get_cached view key (some value) = ok (value, view)
  get_cached view key none = do
    value ← storage_handle.read_value key
    ok (value, miss view key value)

  unfoldable pub get_value_no_log : StorageView → StorageKey → Outcome (H256 × StorageView)
  unfolding get_cached miss insert_at
  get_value_no_log view key =
      get_cached view key (or_else (view.modified_storage_keys key) (view.read_storage_keys key))

  unfoldable pub view_read_value : StorageView → StorageKey → Outcome (H256 × StorageView)
  unfolding get_value_no_log
  view_read_value view key = get_value_no_log view key

  unfoldable pub initial_cached :
      StorageView → StorageKey → Option Bool → Outcome (Bool × StorageView)
  initial_cached view key (some initial) = ok (initial, view)
  initial_cached view key none = do
    initial ← storage_handle.is_write_initial key
    ok (initial, with_initial view key initial)

  unfoldable pub view_is_write_initial : StorageView → StorageKey → Outcome (Bool × StorageView)
  unfolding initial_cached insert_at
  view_is_write_initial view key = initial_cached view key (view.initial_writes key)

  -- The original value, and the view with the new one.
  unfoldable pub set_value : StorageView → StorageKey → H256 → Outcome (H256 × StorageView)
  unfolding get_value_no_log insert_at
  set_value view key value = do
    (original, read) ← get_value_no_log view key
    ok (original, with_written read key value)

  -- `ImmutableStorageView::read_value`: past the modified keys.
  unfoldable pub immutable_read_value : StorageView → StorageKey → Outcome (H256 × StorageView)
  unfolding get_cached miss insert_at
  immutable_read_value view key = get_cached view key (view.read_storage_keys key)
