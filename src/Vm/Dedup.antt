-- ===== src/Vm/Dedup.antt =====
-- crates/multivm/src/utils/deduplicator.rs: `StorageWritesDeduplicator`.
use eravm_airbender_verifier.Common.{
  ℕ, ◌+◌, ◌-◌, ◌%◌, ◌^◌, Bool, true, false, ◌&&◌, Option, none, some, List, [], ◌∷◌, ◌++◌, length,
  ◌==◌, if◌then◌else◌, Outcome, ok, panic, ◌>>=◌, tried_removing_before_insertion, no_snapshot,
}
use eravm_airbender_verifier.Tree.Types.{H256}
use eravm_airbender_verifier.Storage.Log.{
  StorageKey, StorageLogKind, read, initial_write, repeated_write, StorageLogWithPreviousValue,
  is_write,
}
use eravm_airbender_verifier.Writes.Compression.{compress_with_best_strategy}

pub record ModifiedSlot : Type 0 where
  pub value : H256
  pub size : ℕ

pub data UpdateType : Type 0 where
  remove update : ModifiedSlot → UpdateType
  insert : UpdateType

pub record UpdateItem : Type 0 where
  pub key : StorageKey
  pub update_type : UpdateType
  pub is_write_initial : Bool

pub record DeduplicatedWritesMetrics : Type 0 where
  pub initial_storage_writes : ℕ
  pub repeated_storage_writes : ℕ
  pub total_updated_values_size : ℕ

-- A `HashMap` by what it holds at a key.
abbrev pub KeyMap : Type 0 → Type 0
KeyMap A = StorageKey → Option A

-- The back of the queue of snapshots is the head of the list.
pub record StorageWritesDeduplicator : Type 0 where
  pub initial_values : KeyMap H256
  pub modified_key_values : KeyMap ModifiedSlot
  pub metrics : DeduplicatedWritesMetrics
  pub snapshots : List (List UpdateItem)

unfoldable pub key_eq : StorageKey → StorageKey → Bool
key_eq j k = j.address == k.address && j.key == k.key

unfoldable pub insert_at : {A : Type 0} → StorageKey → A → KeyMap A → KeyMap A
unfolding key_eq
insert_at key a m = λ k. if key_eq key k then some a else m k

unfoldable pub remove_at : {A : Type 0} → StorageKey → KeyMap A → KeyMap A
unfolding key_eq
remove_at key m = λ k. if key_eq key k then none else m k

unfoldable pub new_deduplicator : StorageWritesDeduplicator
new_deduplicator = record {
  initial_values = λ k. none;
  modified_key_values = λ k. none;
  metrics = record {
    initial_storage_writes = 0;
    repeated_storage_writes = 0;
    total_updated_values_size = 0;
  };
  snapshots = [];
}

-- `+=` and `-=` on a `usize` of 64 bits, which wrap in the release profile
unfoldable pub add_usize : ℕ → ℕ → ℕ
add_usize a b = (a + b) % 2 ^ 64

unfoldable pub sub_usize : ℕ → ℕ → ℕ
sub_usize a b = ((a + 2 ^ 64) - b % 2 ^ 64) % 2 ^ 64

-- `field_to_change` and `total_size`, changed
unfoldable pub change_metrics :
    DeduplicatedWritesMetrics → Bool → (ℕ → ℕ) → (ℕ → ℕ) → DeduplicatedWritesMetrics
change_metrics metrics is_write_initial field size =
    if is_write_initial
    then record {
      initial_storage_writes = field metrics.initial_storage_writes;
      repeated_storage_writes = metrics.repeated_storage_writes;
      total_updated_values_size = size metrics.total_updated_values_size;
    }
    else record {
      initial_storage_writes = metrics.initial_storage_writes;
      repeated_storage_writes = field metrics.repeated_storage_writes;
      total_updated_values_size = size metrics.total_updated_values_size;
    }

abbrev pub with_modified :
    StorageWritesDeduplicator
    → KeyMap ModifiedSlot
    → DeduplicatedWritesMetrics
    → StorageWritesDeduplicator
with_modified s modified metrics = record {
  initial_values = s.initial_values;
  modified_key_values = modified;
  metrics = metrics;
  snapshots = s.snapshots;
}

abbrev pub with_snapshots :
    StorageWritesDeduplicator → List (List UpdateItem) → StorageWritesDeduplicator
with_snapshots s snapshots = record {
  initial_values = s.initial_values;
  modified_key_values = s.modified_key_values;
  metrics = s.metrics;
  snapshots = snapshots;
}

-- `initial_values.entry(key).or_insert(previous_value)`, and the value there
unfoldable pub enter_initial :
    StorageWritesDeduplicator → StorageKey → H256 → StorageWritesDeduplicator × H256
unfolding insert_at
enter_initial s key previous_value = go (s.initial_values key)
  where
    go : Option H256 → StorageWritesDeduplicator × H256
    go (some value) = (s, value)
    go none = (
      record {
        initial_values = insert_at key previous_value s.initial_values;
        modified_key_values = s.modified_key_values;
        metrics = s.metrics;
        snapshots = s.snapshots;
      },
      previous_value,
    )

unfoldable pub is_initial_kind : StorageLogKind → Bool
is_initial_kind read = false
is_initial_kind initial_write = true
is_initial_kind repeated_write = false

-- `snapshot.extend(updates)`, on the latest snapshot
unfoldable pub extend_back : List (List UpdateItem) → List UpdateItem → List (List UpdateItem)
extend_back [] updates = []
extend_back (back ∷ rest) updates = (back ++ updates) ∷ rest

module _ (bits : ℕ → ℕ) where
  -- The match on `(was_key_modified, modified_value)`, with what the map holds at the key.
  unfoldable pub change_slot :
      StorageWritesDeduplicator
      → StorageKey
      → Bool
      → H256
      → H256
      → Option ModifiedSlot
      → StorageWritesDeduplicator × List UpdateItem
  unfolding insert_at remove_at add_usize sub_usize change_metrics
  change_slot s key initial initial_value value old = go (initial_value == value) old
    where
      size : ℕ
      size = length (compress_with_best_strategy bits initial_value value)

      slot : ModifiedSlot
      slot = record { value = value; size = size }

      item : UpdateType → List UpdateItem
      item update_type =
          record { key = key; update_type = update_type; is_write_initial = initial } ∷ []

      go : Bool → Option ModifiedSlot → StorageWritesDeduplicator × List UpdateItem
      go true none = (s, [])
      go true (some old) = (
        with_modified s (remove_at key s.modified_key_values)
            (change_metrics s.metrics initial (λ n. sub_usize n 1) (λ n. sub_usize n old.size)),
        item (remove old),
      )
      go false (some old) = (
        with_modified s (insert_at key slot s.modified_key_values) (
            change_metrics s.metrics initial (λ n. n) (λ n. add_usize (sub_usize n old.size) size)),
        item (update old),
      )
      go false none = (
        with_modified s (insert_at key slot s.modified_key_values)
            (change_metrics s.metrics initial (λ n. add_usize n 1) (λ n. add_usize n size)),
        item insert,
      )

  unfoldable pub process_write :
      StorageWritesDeduplicator
      → StorageLogWithPreviousValue
      → StorageWritesDeduplicator × List UpdateItem
  unfolding enter_initial change_slot is_initial_kind
  process_write s log =
      let key = log.log.key in
      let (s', initial_value) = enter_initial s key log.previous_value in
      change_slot s' key (is_initial_kind log.log.kind) initial_value log.log.value
        (s'.modified_key_values key)

  unfoldable pub process_log :
      StorageWritesDeduplicator
      → StorageLogWithPreviousValue
      → StorageWritesDeduplicator × List UpdateItem
  unfolding process_write
  process_log s log = if is_write log.log then process_write s log else (s, [])

  unfoldable pub process_storage_logs :
      StorageWritesDeduplicator
      → List StorageLogWithPreviousValue
      → StorageWritesDeduplicator × List UpdateItem
  unfolding process_log
  process_storage_logs s [] = (s, [])
  process_storage_logs s (log ∷ logs) =
      let (s', item) = process_log s log in
      let (last, items) = process_storage_logs s' logs in (last, item ++ items)

  unfoldable pub apply :
      StorageWritesDeduplicator → List StorageLogWithPreviousValue → StorageWritesDeduplicator
  unfolding process_storage_logs extend_back
  apply s logs =
      let (s', updates) = process_storage_logs s logs in
      with_snapshots s' (extend_back s'.snapshots updates)

-- One round of `rollback`.
unfoldable pub undo : StorageWritesDeduplicator → UpdateItem → Outcome StorageWritesDeduplicator
unfolding insert_at remove_at add_usize sub_usize change_metrics
undo s item = go item.update_type (s.modified_key_values item.key)
  where
    metrics : (ℕ → ℕ) → (ℕ → ℕ) → DeduplicatedWritesMetrics
    metrics = change_metrics s.metrics item.is_write_initial

    go : UpdateType → Option ModifiedSlot → Outcome StorageWritesDeduplicator
    go insert none = panic tried_removing_before_insertion
    go insert (some value) = ok (
        with_modified s (remove_at item.key s.modified_key_values)
          (metrics (λ n. sub_usize n 1) (λ n. sub_usize n value.size)))
    go (update value) none = panic tried_removing_before_insertion
    go (update value) (some old_value) = ok (
        with_modified s (insert_at item.key value s.modified_key_values)
          (metrics (λ n. n) (λ n. sub_usize (add_usize n value.size) old_value.size)))
    go (remove value) old = ok (
        with_modified s (insert_at item.key value s.modified_key_values)
          (metrics (λ n. add_usize n 1) (λ n. add_usize n value.size)))

-- The items are undone from the last to the first.
unfoldable pub rollback :
    StorageWritesDeduplicator → List UpdateItem → Outcome StorageWritesDeduplicator
unfolding undo
rollback s [] = ok s
rollback s (item ∷ items) = do later ← rollback s items; undo later item

unfoldable pub make_snapshot : StorageWritesDeduplicator → StorageWritesDeduplicator
make_snapshot s = with_snapshots s ([] ∷ s.snapshots)

unfoldable pub rollback_to_latest_snapshot_popping :
    StorageWritesDeduplicator → Outcome StorageWritesDeduplicator
unfolding rollback
rollback_to_latest_snapshot_popping s = go s.snapshots
  where
    go : List (List UpdateItem) → Outcome StorageWritesDeduplicator
    go [] = panic no_snapshot
    go (snapshot ∷ rest) = rollback (with_snapshots s rest) snapshot

-- `pop_front`, which is the end of the list
unfoldable pub without_last {ℓ} : {A : Type ℓ} → List A → List A
without_last [] = []
without_last (x ∷ []) = []
without_last (x ∷ y ∷ rest) = x ∷ without_last (y ∷ rest)

unfoldable pub pop_front_snapshot_no_rollback :
    StorageWritesDeduplicator → StorageWritesDeduplicator
unfolding without_last
pop_front_snapshot_no_rollback s = with_snapshots s (without_last s.snapshots)

module _ (bits : ℕ → ℕ) where
  unfoldable pub apply_and_rollback :
      StorageWritesDeduplicator
      → List StorageLogWithPreviousValue
      → Outcome (StorageWritesDeduplicator × DeduplicatedWritesMetrics)
  unfolding process_storage_logs rollback
  apply_and_rollback s logs = do
    let processed = process_storage_logs bits s logs
    back ← rollback processed.0 processed.1
    ok (back, processed.0.metrics)

  unfoldable pub apply_on_empty_state : List StorageLogWithPreviousValue → DeduplicatedWritesMetrics
  unfolding apply new_deduplicator
  apply_on_empty_state logs = (apply bits new_deduplicator logs).metrics
