-- ===== src/Vm/Snapshots.antt =====
-- crates/multivm/src/utils/deduplicator.rs: snapshots and isolated runs leave no trace.
use eravm_airbender_verifier.Common.{ℕ, ◌≡◌, refl, ap, ◌∙◌, List, [], ◌∷◌, ◌++◌, ok}
use eravm_airbender_verifier.Storage.Log.{StorageLogWithPreviousValue}
use eravm_airbender_verifier.Vm.Dedup.{
  UpdateItem, StorageWritesDeduplicator, with_modified, with_snapshots, process_storage_logs,
  extend_back, apply, rollback, make_snapshot, rollback_to_latest_snapshot_popping,
  apply_and_rollback,
}
use eravm_airbender_verifier.Vm.Undo.{MetricsInRange, rollback-append}
use eravm_airbender_verifier.Vm.Rollback.{
  Undoes, process_storage_logs-MetricsInRange, process_storage_logs-snapshots,
  process_storage_logs-Undoes,
}

-- A deduplicator that has another's slots, counters and snapshots; its initial values may be more.
abbrev pub restored :
    StorageWritesDeduplicator → StorageWritesDeduplicator → StorageWritesDeduplicator
restored s later = with_snapshots (with_modified later s.modified_key_values s.metrics) s.snapshots

-- `apply`, batch after batch.
abbrev pub apply_batches :
    (ℕ → ℕ)
    → StorageWritesDeduplicator
    → List (List StorageLogWithPreviousValue)
    → StorageWritesDeduplicator
apply_batches bits s [] = s
apply_batches bits s (logs ∷ batches) = apply_batches bits (apply bits s logs) batches

-- The latest snapshot of a state leads back to an earlier state.
record LeadsBack (s t : StorageWritesDeduplicator) : Type 0 where
  back : List UpdateItem
  latest : t.snapshots ≡ back ∷ s.snapshots
  undoes : Undoes s (t, back)
  in_range : MetricsInRange t.metrics

module _ (bits : ℕ → ℕ) where
  make_snapshot-LeadsBack :
      (s : StorageWritesDeduplicator) → MetricsInRange s.metrics → LeadsBack s (make_snapshot s)
  unfolding make_snapshot rollback
  make_snapshot-LeadsBack s r = record {
    back = [];
    latest = refl;
    undoes = λ t. refl;
    in_range = r;
  }

  apply-LeadsBack :
      (s t : StorageWritesDeduplicator) (logs : List StorageLogWithPreviousValue)
      → LeadsBack s t
      → LeadsBack s (apply bits t logs)
  unfolding apply extend_back
  apply-LeadsBack s t logs b =
      let (t', updates) = process_storage_logs bits t logs in
      record {
        back = b.back ++ updates;
        latest =
            ap (λ snapshots. extend_back snapshots updates)
              (process_storage_logs-snapshots bits t logs ∙ b.latest);
        undoes = λ u.
            rollback-append (with_modified u t'.modified_key_values t'.metrics)
              (with_modified u t.modified_key_values t.metrics) b.back updates
              (process_storage_logs-Undoes bits t logs b.in_range u)
            ∙ b.undoes u;
        in_range = process_storage_logs-MetricsInRange bits t logs b.in_range;
      }

  apply_batches-LeadsBack :
      (s t : StorageWritesDeduplicator) (batches : List (List StorageLogWithPreviousValue))
      → LeadsBack s t
      → LeadsBack s (apply_batches bits t batches)
  apply_batches-LeadsBack s t [] b = b
  apply_batches-LeadsBack s t (logs ∷ batches) b =
      apply_batches-LeadsBack s (apply bits t logs) batches (apply-LeadsBack s t logs b)

  LeadsBack-rollback :
      (s t : StorageWritesDeduplicator)
      → LeadsBack s t
      → rollback_to_latest_snapshot_popping t ≡ ok (restored s t)
  unfolding rollback_to_latest_snapshot_popping
  LeadsBack-rollback s t b = rw b.latest (b.undoes (with_snapshots t s.snapshots))

  -- After a snapshot, any batches of logs and a rollback to the latest snapshot, the slots, the
  -- counters and the snapshots are those from before the snapshot, and the rollback does not panic.
  -- The counters are in the range of their type.
  pub rollback-make_snapshot :
      (s : StorageWritesDeduplicator) (batches : List (List StorageLogWithPreviousValue))
      → MetricsInRange s.metrics
      → rollback_to_latest_snapshot_popping (apply_batches bits (make_snapshot s) batches)
        ≡ ok (restored s (apply_batches bits (make_snapshot s) batches))
  rollback-make_snapshot s batches r =
      LeadsBack-rollback s (apply_batches bits (make_snapshot s) batches)
        (apply_batches-LeadsBack s (make_snapshot s) batches (make_snapshot-LeadsBack s r))

  -- `apply_and_rollback` returns the counters that `apply` would leave, and puts the slots, the counters
  -- and the snapshots back as they were, while the initial values stay as `apply` leaves them, with
  -- those that the logs have added; it does not panic. The counters are in range.
  pub apply_and_rollback_lem :
      (s : StorageWritesDeduplicator) (logs : List StorageLogWithPreviousValue)
      → MetricsInRange s.metrics
      → apply_and_rollback bits s logs
        ≡ ok (restored s (apply bits s logs), (apply bits s logs).metrics)
  unfolding apply_and_rollback apply
  apply_and_rollback_lem s logs r =
      let (last, items) = process_storage_logs bits s logs in
      rw (process_storage_logs-Undoes bits s logs r last) (
        ap
          (λ snapshots. ok (
            with_snapshots (with_modified last s.modified_key_values s.metrics) snapshots,
            last.metrics,
          ))
          (process_storage_logs-snapshots bits s logs))
