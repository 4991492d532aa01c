-- ===== src/Batch/Machine.antt =====
-- The VM as the verifier uses it (crates/vm_interface/src/vm.rs), and the run of a batch's blocks and
-- transactions on it: `execute_tx` and `execute_vm` of crates/airbender_verifier/src/lib.rs.
use eravm_airbender_verifier.Common.{
  ℕ, Bool, true, false, Option, List, [], ◌∷◌, Outcome, ok, err, ensure, ◌>>=◌, ◌>>◌,
  last_block_not_empty, batch_not_finalized, compression_failed, transaction_halted,
}
use eravm_airbender_verifier.Tree.Types.{H256}
use eravm_airbender_verifier.Storage.Log.{StorageLog}
use eravm_airbender_verifier.Verifier.Defs.{View}
use eravm_airbender_verifier.Writes.Diffs.{StateDiffRecord}
use eravm_airbender_verifier.Batch.Version.{ProtocolVersionId}
use eravm_airbender_verifier.Batch.Hashing.{L2ToL1Log}
use eravm_airbender_verifier.Batch.Env.{
  L1BatchEnv, SystemEnv, L2BlockEnv, L2BlockExecutionData, from_l2_block_data, PubdataParams,
}

-- The reasons of a revert and of a halt are only printed.
pub data ExecutionResult : Type 0 where
  success : (output : List ℕ) → ExecutionResult
  revert halt : ExecutionResult

-- `CurrentExecutionState`, of which the verifier takes two fields.
pub record FinalExecutionState : Type 0 where
  pub deduplicated_storage_logs : List StorageLog
  pub system_logs : List L2ToL1Log

pub record FinishedL1Batch : Type 0 where
  pub block_tip_execution_result : ExecutionResult
  pub final_execution_state : FinalExecutionState
  pub final_bootloader_memory : Option (List (ℕ × ℕ))
  pub pubdata_input : Option (List ℕ)
  pub state_diffs : Option (List StateDiffRecord)

-- `StorageSnapshot`: the values by hashed key, and the bytecodes by hash.
pub record StorageSnapshot : Type 0 where
  pub storage : View
  pub factory_deps : List (H256 × List ℕ)

-- The VM: a run may stop the program, and never returns an error. The flag of a transaction is the
-- compression result's `is_ok`.
pub record VmInterface : Type 1 where
  pub Transaction : Type 0
  pub State : Type 0
  pub new_vm : L1BatchEnv → SystemEnv → StorageSnapshot → State
  pub make_snapshot : State → State
  pub rollback_to_the_latest_snapshot : State → State
  pub pop_snapshot_no_rollback : State → State
  pub execute_transaction_with_bytecode_compression :
      State → Transaction → Bool → Outcome ((Bool × ExecutionResult) × State)
  pub start_new_l2_block : State → L2BlockEnv → Outcome State
  pub finish_batch : State → PubdataParams → ProtocolVersionId → Outcome FinishedL1Batch

unfoldable pub ensure_not_halted : ExecutionResult → Outcome (Unit {0})
ensure_not_halted (success output) = ok tt
ensure_not_halted revert = ok tt
ensure_not_halted halt = err transaction_halted

abbrev pub is_success : ExecutionResult → Bool
is_success (success output) = true
is_success revert = false
is_success halt = false

abbrev pub is_empty {ℓ} : {A : Type ℓ} → List A → Bool
is_empty [] = true
is_empty (x ∷ xs) = false

-- `.last().is_none_or(|block| block.txs.is_empty())`
unfoldable pub last_block_is_empty :
    {Transaction : Type 0} → List (L2BlockExecutionData Transaction) → Bool
last_block_is_empty [] = true
last_block_is_empty (block ∷ []) = is_empty block.txs
last_block_is_empty (block ∷ next ∷ blocks) = last_block_is_empty (next ∷ blocks)

module _ (vm : VmInterface) where
  -- The run without compression, after the rollback.
  unfoldable pub execute_uncompressed : vm.Transaction → vm.State → Outcome vm.State
  unfolding ensure_not_halted
  execute_uncompressed tx state = do
    ((compressed, result), next) ← vm.execute_transaction_with_bytecode_compression state tx false
    ensure compressed compression_failed
    ensure_not_halted result
    ok next

  -- What follows the run with compression, by its result.
  unfoldable pub after_compressed :
      vm.Transaction → (Bool × ExecutionResult) × vm.State → Outcome vm.State
  unfolding ensure_not_halted execute_uncompressed
  after_compressed tx ((true, result), next) = do
    ensure_not_halted result
    ok (vm.pop_snapshot_no_rollback next)
  after_compressed tx ((false, result), next) =
      execute_uncompressed tx (vm.rollback_to_the_latest_snapshot next)

  unfoldable pub execute_tx : vm.Transaction → vm.State → Outcome vm.State
  unfolding after_compressed
  execute_tx tx state =
      vm.execute_transaction_with_bytecode_compression (vm.make_snapshot state) tx true
      >>= after_compressed tx

  unfoldable pub execute_txs : List vm.Transaction → vm.State → Outcome vm.State
  unfolding execute_tx
  execute_txs [] state = ok state
  execute_txs (tx ∷ txs) state = do next ← execute_tx tx state; execute_txs txs next

  -- The zip of the blocks with their successors.
  unfoldable pub execute_blocks :
      List (L2BlockExecutionData vm.Transaction) → vm.State → Outcome vm.State
  unfolding execute_txs from_l2_block_data
  execute_blocks [] state = ok state
  execute_blocks (block ∷ []) state = ok state
  execute_blocks (block ∷ next ∷ blocks) state = do
    executed ← execute_txs block.txs state
    started ← vm.start_new_l2_block executed (from_l2_block_data next)
    execute_blocks (next ∷ blocks) started

  unfoldable pub execute_vm :
      List (L2BlockExecutionData vm.Transaction)
      → vm.State
      → PubdataParams
      → ProtocolVersionId
      → Outcome FinishedL1Batch
  unfolding last_block_is_empty execute_blocks
  execute_vm l2_blocks_execution_data state pubdata_params protocol_version = do
    ensure (last_block_is_empty l2_blocks_execution_data) last_block_not_empty
    executed ← execute_blocks l2_blocks_execution_data state
    finished ← vm.finish_batch executed pubdata_params protocol_version
    ensure (is_success finished.block_tip_execution_result) batch_not_finalized
    ok finished
