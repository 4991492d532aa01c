-- ===== src/Vm/Rollback.antt =====
-- crates/multivm/src/utils/deduplicator.rs: a rollback undoes what was processed.
use mathlib.Core.Path.{ap₂}
use eravm_airbender_verifier.Common.{
  ℕ, ◌≡◌, refl, ◌∙◌, Bool, Option, none, some, List, [], ◌∷◌, length, ◌==◌, ok, Bool-cases,
  Option-cases, inl, inr,
}
use eravm_airbender_verifier.Tree.Types.{H256}
use eravm_airbender_verifier.Storage.Log.{StorageKey, StorageLogWithPreviousValue, is_write}
use eravm_airbender_verifier.Writes.Compression.{compress_with_best_strategy}
use eravm_airbender_verifier.Vm.Dedup.{
  ModifiedSlot, UpdateItem, StorageWritesDeduplicator, add_usize, sub_usize, with_modified,
  enter_initial, change_slot, process_log, process_write, process_storage_logs, undo, rollback,
  is_initial_kind,
}
use eravm_airbender_verifier.Vm.Undo.{
  insert_at-same, remove_at-insert_at, insert_at-insert_at, insert_at-remove_at,
  sub_usize-add_usize, add_usize-sub_usize, change_metrics-undo, rollback-append,
  change_metrics-MetricsInRange, add_usize-lt, sub_usize-lt, enter_initial-keeps, undo-insert,
  undo-update, usize_update, MetricsInRange,
}

-- In a state with the slots and counters that processing left, the rollback restores those before.
abbrev pub Undoes : StorageWritesDeduplicator → StorageWritesDeduplicator × List UpdateItem → Type 0
Undoes s processed =
    (t : StorageWritesDeduplicator)
    → rollback (with_modified t processed.0.modified_key_values processed.0.metrics) processed.1
      ≡ ok (with_modified t s.modified_key_values s.metrics)

module _ (bits : ℕ → ℕ) where
  abbrev slot_of : H256 → H256 → ModifiedSlot
  slot_of initial_value value = record {
    value = value;
    size = length (compress_with_best_strategy bits initial_value value);
  }

  change_slot-Undoes :
      (s : StorageWritesDeduplicator) (key : StorageKey) (initial : Bool)
      (initial_value value : H256)
      → MetricsInRange s.metrics
      → Undoes s (change_slot bits s key initial initial_value value (s.modified_key_values key))
  unfolding change_slot rollback undo
  change_slot-Undoes s key initial initial_value value r t =
      elim (Bool-cases (initial_value == value)) [
        | inl same ↦ elim (Option-cases (s.modified_key_values key)) [
          | inl absent ↦ rw (same, absent)
          | inr (old, present) ↦
              rw (same, present)
                (ap₂ (λ m c. ok (with_modified t m c))
                  (insert_at-remove_at key old s.modified_key_values present)
                  (change_metrics-undo s.metrics initial (λ n. sub_usize n 1)
                    (λ n. sub_usize n old.size) (λ n. add_usize n 1) (λ n. add_usize n old.size) r
                    (λ n h. add_usize-sub_usize n 1 h) (λ n h. add_usize-sub_usize n old.size h)))
        ]
        | inr differs ↦ elim (Option-cases (s.modified_key_values key)) [
          | inl absent ↦
              rw (differs, absent)
                (undo-insert _ key initial (slot_of initial_value value)
                    (insert_at-same key (slot_of initial_value value) s.modified_key_values)
                  ∙ ap₂ (λ m c. ok (with_modified t m c))
                      (remove_at-insert_at key (slot_of initial_value value) s.modified_key_values
                        absent)
                      (change_metrics-undo s.metrics initial (λ n. add_usize n 1)
                        (λ n. add_usize n (slot_of initial_value value).size) (λ n. sub_usize n 1)
                        (λ n. sub_usize n (slot_of initial_value value).size) r
                        (λ n h. sub_usize-add_usize n 1 h)
                        (λ n h. sub_usize-add_usize n (slot_of initial_value value).size h)))
          | inr (old, present) ↦
              rw (differs, present)
                (undo-update _ key initial old (slot_of initial_value value)
                    (insert_at-same key (slot_of initial_value value) s.modified_key_values)
                  ∙ ap₂ (λ m c. ok (with_modified t m c))
                      (insert_at-insert_at key (slot_of initial_value value) s.modified_key_values
                        old present)
                      (change_metrics-undo s.metrics initial (λ n. n)
                        (λ n. add_usize (sub_usize n old.size) (slot_of initial_value value).size)
                        (λ n. n)
                        (λ n. sub_usize (add_usize n old.size) (slot_of initial_value value).size) r
                        (λ n h. refl)
                        (λ n h. usize_update n old.size (slot_of initial_value value).size h)))
        ]
      ]

  process_write-Undoes :
      (s : StorageWritesDeduplicator) (log : StorageLogWithPreviousValue)
      → MetricsInRange s.metrics
      → Undoes s (process_write bits s log)
  unfolding process_write
  process_write-Undoes s log r t =
      let (s', initial_value) = enter_initial s log.log.key log.previous_value in
      let (modified, metrics, _) = enter_initial-keeps s log.log.key log.previous_value in
      change_slot-Undoes s' log.log.key (is_initial_kind log.log.kind) initial_value log.log.value
        (rw metrics r) t
      ∙ ap₂ (λ m c. ok (with_modified t m c)) modified metrics

  process_log-Undoes :
      (s : StorageWritesDeduplicator) (log : StorageLogWithPreviousValue)
      → MetricsInRange s.metrics
      → Undoes s (process_log bits s log)
  unfolding process_log rollback
  process_log-Undoes s log r t = elim (Bool-cases (is_write log.log)) [
    | inl w ↦ rw w (process_write-Undoes s log r t)
    | inr w ↦ rw w
  ]

  change_slot-MetricsInRange :
      (s : StorageWritesDeduplicator) (key : StorageKey) (initial : Bool)
      (initial_value value : H256) (old : Option ModifiedSlot)
      → MetricsInRange s.metrics
      → MetricsInRange (change_slot bits s key initial initial_value value old).0.metrics
  unfolding change_slot
  change_slot-MetricsInRange s key initial initial_value value none r =
      elim (Bool-cases (initial_value == value)) [
        | inl same ↦ rw same r
        | inr differs ↦ rw differs (
            change_metrics-MetricsInRange s.metrics initial (λ n. add_usize n 1)
              (λ n. add_usize n (slot_of initial_value value).size) r (λ n h. add_usize-lt n 1)
              (λ n h. add_usize-lt n (slot_of initial_value value).size))
      ]
  change_slot-MetricsInRange s key initial initial_value value (some old) r =
      elim (Bool-cases (initial_value == value)) [
        | inl same ↦ rw same (
            change_metrics-MetricsInRange s.metrics initial (λ n. sub_usize n 1)
              (λ n. sub_usize n old.size) r (λ n h. sub_usize-lt n 1)
              (λ n h. sub_usize-lt n old.size))
        | inr differs ↦ rw differs (
            change_metrics-MetricsInRange s.metrics initial (λ n. n)
              (λ n. add_usize (sub_usize n old.size) (slot_of initial_value value).size) r
              (λ n h. h)
              (λ n h. add_usize-lt (sub_usize n old.size) (slot_of initial_value value).size))
      ]

  process_log-MetricsInRange :
      (s : StorageWritesDeduplicator) (log : StorageLogWithPreviousValue)
      → MetricsInRange s.metrics
      → MetricsInRange (process_log bits s log).0.metrics
  unfolding process_log process_write
  process_log-MetricsInRange s log r = elim (Bool-cases (is_write log.log)) [
    | inl w ↦
        let (s', initial_value) = enter_initial s log.log.key log.previous_value in
        let (_, metrics, _) = enter_initial-keeps s log.log.key log.previous_value in
        rw w (
          change_slot-MetricsInRange s' log.log.key (is_initial_kind log.log.kind) initial_value
            log.log.value (s'.modified_key_values log.log.key) (rw metrics r))
    | inr w ↦ rw w r
  ]

  change_slot-snapshots :
      (s : StorageWritesDeduplicator) (key : StorageKey) (initial : Bool)
      (initial_value value : H256) (old : Option ModifiedSlot)
      → (change_slot bits s key initial initial_value value old).0.snapshots ≡ s.snapshots
  unfolding change_slot
  change_slot-snapshots s key initial initial_value value none =
      elim (Bool-cases (initial_value == value)) [ inl same ↦ rw same | inr differs ↦ rw differs ]
  change_slot-snapshots s key initial initial_value value (some old) =
      elim (Bool-cases (initial_value == value)) [ inl same ↦ rw same | inr differs ↦ rw differs ]

  process_log-snapshots :
      (s : StorageWritesDeduplicator) (log : StorageLogWithPreviousValue)
      → (process_log bits s log).0.snapshots ≡ s.snapshots
  unfolding process_log process_write
  process_log-snapshots s log = elim (Bool-cases (is_write log.log)) [
    | inl w ↦
        let (s', initial_value) = enter_initial s log.log.key log.previous_value in
        let (_, _, kept) = enter_initial-keeps s log.log.key log.previous_value in
        rw w (
          change_slot-snapshots s' log.log.key (is_initial_kind log.log.kind) initial_value
            log.log.value (s'.modified_key_values log.log.key)
          ∙ kept)
    | inr w ↦ rw w
  ]

  pub process_storage_logs-MetricsInRange :
      (s : StorageWritesDeduplicator) (logs : List StorageLogWithPreviousValue)
      → MetricsInRange s.metrics
      → MetricsInRange (process_storage_logs bits s logs).0.metrics
  unfolding process_storage_logs
  process_storage_logs-MetricsInRange s [] r = r
  process_storage_logs-MetricsInRange s (log ∷ logs) r =
      process_storage_logs-MetricsInRange (process_log bits s log).0 logs
        (process_log-MetricsInRange s log r)

  pub process_storage_logs-snapshots :
      (s : StorageWritesDeduplicator) (logs : List StorageLogWithPreviousValue)
      → (process_storage_logs bits s logs).0.snapshots ≡ s.snapshots
  unfolding process_storage_logs
  process_storage_logs-snapshots s [] = refl
  process_storage_logs-snapshots s (log ∷ logs) =
      process_storage_logs-snapshots (process_log bits s log).0 logs ∙ process_log-snapshots s log

  pub process_storage_logs-Undoes :
      (s : StorageWritesDeduplicator) (logs : List StorageLogWithPreviousValue)
      → MetricsInRange s.metrics
      → Undoes s (process_storage_logs bits s logs)
  unfolding process_storage_logs rollback
  process_storage_logs-Undoes s [] r t = refl
  process_storage_logs-Undoes s (log ∷ logs) r t =
      let (s', item) = process_log bits s log in
      let (last, items) = process_storage_logs bits s' logs in
      rollback-append (with_modified t last.modified_key_values last.metrics)
        (with_modified t s'.modified_key_values s'.metrics) item items
        (process_storage_logs-Undoes s' logs (process_log-MetricsInRange s log r) t)
      ∙ process_log-Undoes s log r t
