-- ===== src/Batch/Transactions.antt =====
-- crates/airbender_verifier/src/lib.rs: the runs of transactions and blocks that `execute_vm` stands
-- for, as relations on the VM's states.
use eravm_airbender_verifier.Common.{ℕ, ◌≡◌, refl, Bool, true, false, List, [], ◌∷◌, ok}
use eravm_airbender_verifier.Batch.Version.{ProtocolVersionId}
use eravm_airbender_verifier.Batch.Env.{L2BlockExecutionData, from_l2_block_data, PubdataParams}
use eravm_airbender_verifier.Batch.Machine.{
  ExecutionResult, success, revert, halt, FinishedL1Batch, VmInterface, ensure_not_halted,
  is_success, last_block_is_empty,
}

-- What the documentation of the snapshots says: a rollback after a run restores the state that the
-- snapshot was made of.
pub record RollsBack (vm : VmInterface) : Type 0 where
  pub rollback-execute :
      (state : vm.State) (tx : vm.Transaction) (outcome : Bool × ExecutionResult) (next : vm.State)
      → vm.execute_transaction_with_bytecode_compression (vm.make_snapshot state) tx true
        ≡ ok (outcome, next)
      → vm.rollback_to_the_latest_snapshot next ≡ state

-- A success or a revert is a transaction's outcome; a halt is none.
pub data IsKept : ExecutionResult → Type 0 where
  kept_success : (output : List ℕ) → IsKept (success output)
  kept_revert : IsKept revert

pub ensure_not_halted-IsKept :
    (result : ExecutionResult) {u : Unit {0}} → ensure_not_halted result ≡ ok u → IsKept result
unfolding ensure_not_halted
ensure_not_halted-IsKept (success output) e = kept_success output
ensure_not_halted-IsKept revert e = kept_revert
ensure_not_halted-IsKept halt e = cc

pub IsKept-ensure_not_halted :
    (result : ExecutionResult) → IsKept result → ensure_not_halted result ≡ ok tt
unfolding ensure_not_halted
IsKept-ensure_not_halted _ (kept_success output) = refl
IsKept-ensure_not_halted _ kept_revert = refl

module _ (vm : VmInterface) where
  -- One transaction: run with compression, or, where that cannot be compressed, from the same state
  -- without.
  pub data Executes (tx : vm.Transaction) (state next : vm.State) : Type 0 where
    compressed :
        (result : ExecutionResult) (ran : vm.State)
        → vm.execute_transaction_with_bytecode_compression (vm.make_snapshot state) tx true
          ≡ ok ((true, result), ran)
        → IsKept result
        → vm.pop_snapshot_no_rollback ran ≡ next
        → Executes tx state next
    uncompressed :
        (failed result : ExecutionResult) (ran : vm.State)
        → vm.execute_transaction_with_bytecode_compression (vm.make_snapshot state) tx true
          ≡ ok ((false, failed), ran)
        → vm.execute_transaction_with_bytecode_compression state tx false
          ≡ ok ((true, result), next)
        → IsKept result
        → Executes tx state next

  pub data ExecutesAll : List vm.Transaction → vm.State → vm.State → Type 0 where
    no_more : (state : vm.State) → ExecutesAll [] state state
    one_more :
        (tx : vm.Transaction) (txs : List vm.Transaction) (state next last : vm.State)
        → Executes tx state next
        → ExecutesAll txs next last
        → ExecutesAll (tx ∷ txs) state last

  -- Every block but the last: its transactions, then the start of the next one.
  pub data ExecutesBlocks
      : List (L2BlockExecutionData vm.Transaction) → vm.State → vm.State → Type 0 where
    no_block : (state : vm.State) → ExecutesBlocks [] state state
    last_block :
        (block : L2BlockExecutionData vm.Transaction) (state : vm.State)
        → ExecutesBlocks (block ∷ []) state state
    next_block :
        (block next : L2BlockExecutionData vm.Transaction)
        (blocks : List (L2BlockExecutionData vm.Transaction)) (state ran started last : vm.State)
        → ExecutesAll block.txs state ran
        → vm.start_new_l2_block ran (from_l2_block_data next) ≡ ok started
        → ExecutesBlocks (next ∷ blocks) started last
        → ExecutesBlocks (block ∷ next ∷ blocks) state last

  -- A whole batch, up to the VM's output for it.
  pub data Runs (blocks : List (L2BlockExecutionData vm.Transaction)) (state : vm.State)
      (pubdata_params : PubdataParams) (protocol_version : ProtocolVersionId)
      (finished : FinishedL1Batch) : Type 0 where
    runs :
        last_block_is_empty blocks ≡ true
        → (last : vm.State) → ExecutesBlocks blocks state last
        → vm.finish_batch last pubdata_params protocol_version ≡ ok finished
        → is_success finished.block_tip_execution_result ≡ true
        → Runs blocks state pubdata_params protocol_version finished
