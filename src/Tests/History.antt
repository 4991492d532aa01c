-- ===== src/Tests/History.antt =====
-- A frame manager whose rollback items move forward, and a transient storage with one write, rolled
-- back to the timestamp 8, with 4 timestamps in a cycle.
use eravm_airbender_verifier.Common.{ℕ, ◌≡◌, refl, true, none, [], ◌∷◌, ok, arith}
use eravm_airbender_verifier.Storage.Log.{StorageKey}
use eravm_airbender_verifier.Vm.Dedup.{insert_at}
use eravm_airbender_verifier.Vm.History.{
  HistoryRecorder, normalize_timestamp, push_history, apply_historic_record, rollback_to_timestamp,
  apply_transient, transient_storage,
}
use eravm_airbender_verifier.Vm.History.Framed.{
  push_item, pop_item, apply_framed, framed_stack, current_frame, act, push_to_frame, pop_items,
  clear_frame, push_filtered, AppDataFrameManagerWithHistory, push_rollback,
  move_rollback_to_forward, rollback_both,
}
use eravm_airbender_verifier.Vm.History.Rollback.{
  Records, no_action, one_action, rollback_to_timestamp-Records,
}
use eravm_airbender_verifier.Vm.History.Reversible.{transient_storage-Reversible}
use eravm_airbender_verifier.Vm.History.Steps.{
  ManagerRuns, not_yet, and_then, rollback_item, moved_items,
}
use eravm_airbender_verifier.Vm.History.Manager.{rollback_both-ManagerRuns}

start : AppDataFrameManagerWithHistory ℕ 4
unfolding framed_stack
start = record {
  forward = record {
    inner = record { stack_data = 3 ∷ []; frame_start_indices = 0 ∷ [] };
    history = (4, pop_item) ∷ [];
  };
  rollback = record {
    inner = record { stack_data = []; frame_start_indices = 0 ∷ [] };
    history = [];
  };
}

pushed : AppDataFrameManagerWithHistory ℕ 4
unfolding framed_stack start
pushed = record {
  forward = start.forward;
  rollback = record {
    inner = record { stack_data = 6 ∷ []; frame_start_indices = 0 ∷ [] };
    history = (8, pop_item) ∷ [];
  };
}

moved : AppDataFrameManagerWithHistory ℕ 4
unfolding framed_stack
moved = record {
  forward = record {
    inner = record { stack_data = 6 ∷ 3 ∷ []; frame_start_indices = 0 ∷ [] };
    history = (8, pop_item) ∷ (4, pop_item) ∷ [];
  };
  rollback = record {
    inner = record { stack_data = []; frame_start_indices = 0 ∷ [] };
    history = (8, push_item 6) ∷ (8, pop_item) ∷ [];
  };
}

runs : ManagerRuns ℕ 4 8 start moved
unfolding start pushed moved push_rollback move_rollback_to_forward current_frame push_filtered
    clear_frame pop_items push_to_frame act apply_historic_record push_history normalize_timestamp
    framed_stack apply_framed
runs =
    and_then pushed moved (and_then start pushed not_yet (rollback_item 6 9 (omega arith) refl))
      (moved_items (λ x. true) 10 (omega arith) refl)

rollback_both-ManagerRuns_example : rollback_both ℕ 4 moved 8 ≡ ok start
unfolding start framed_stack
rollback_both-ManagerRuns_example =
    rollback_both-ManagerRuns ℕ 4 8 start moved runs (omega arith) tt

nothing : HistoryRecorder transient_storage
unfolding transient_storage
nothing = record { inner = λ k. none; history = [] }

abbrev slot : StorageKey
slot = record { address = 1; key = 2 }

written : HistoryRecorder transient_storage
unfolding transient_storage
written = record {
  inner = insert_at slot 5 (λ k. none);
  history = (8, record { key = slot; value = 0 }) ∷ [];
}

one_write : Records transient_storage 4 8 nothing written
unfolding nothing written transient_storage apply_transient apply_historic_record push_history
    normalize_timestamp
one_write =
    one_action nothing written (record { key = slot; value = 5 }) 0 11 no_action (omega arith) refl

rollback_to_timestamp-Records_example :
    (restored : transient_storage.State) × (rollback_to_timestamp transient_storage written 8
      ≡ ok (record { inner = restored; history = nothing.history }))
    × transient_storage-Reversible.Same restored nothing.inner
unfolding nothing
rollback_to_timestamp-Records_example =
    rollback_to_timestamp-Records transient_storage transient_storage-Reversible 4 8 nothing written
      one_write tt
