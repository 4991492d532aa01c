-- ===== src/Tests/Machine.antt =====
-- A VM that counts, with a stack of snapshots: it cannot compress the transaction 0.
use eravm_airbender_verifier.Common.{
  ℕ, ◌+◌, ◌≡◌, Bool, true, false, not, ◌==◌, some, List, [], ◌∷◌, ok, ok-injective, sym, ap,
}
use eravm_airbender_verifier.Batch.Version.{ProtocolVersionId}
use eravm_airbender_verifier.Batch.Hashing.{L2ToL1Log}
use eravm_airbender_verifier.Batch.Env.{
  L2BlockExecutionData, PubdataParams, commitment_scheme, blobs_and_pubdata_keccak256, rollup,
}
use eravm_airbender_verifier.Batch.Machine.{success, FinishedL1Batch, VmInterface, execute_vm}
use eravm_airbender_verifier.Batch.Transactions.{RollsBack, Runs}
use eravm_airbender_verifier.Batch.Refinement.{execute_vm-Runs}
use eravm_airbender_verifier.Tests.Batch.{one_log}

abbrev State : Type 0
State = ℕ × List ℕ

abbrev restore : State → State
restore (count, []) = (count, [])
restore (count, saved ∷ older) = (saved, older)

abbrev forget : State → State
forget (count, []) = (count, [])
forget (count, saved ∷ older) = (count, older)

abbrev compresses : ℕ → Bool → Bool
compresses tx true = not (tx == 0)
compresses tx false = true

abbrev system_log : L2ToL1Log
system_log = record {
  shard_id = 0;
  is_service = true;
  tx_number_in_block = 1;
  sender = 32776;
  key = 1;
  value = 2;
}

abbrev pub finished : FinishedL1Batch
finished = record {
  block_tip_execution_result = success [];
  final_execution_state = record {
    deduplicated_storage_logs = one_log;
    system_logs = system_log ∷ [];
  };
  final_bootloader_memory = some [];
  pubdata_input = some [];
  state_diffs = some [];
}

abbrev pub counter : VmInterface
counter = record {
  Transaction = ℕ;
  State = State;
  new_vm = λ batch_env system_env snapshot. (0, []);
  make_snapshot = λ state. (state.0, state.0 ∷ state.1);
  rollback_to_the_latest_snapshot = restore;
  pop_snapshot_no_rollback = forget;
  execute_transaction_with_bytecode_compression = λ state tx compression.
      ok ((compresses tx compression, success []), (state.0 + (tx + 1), state.1));
  start_new_l2_block = λ state block. ok state;
  finish_batch = λ state params version. ok finished;
}

pub counter-RollsBack : RollsBack counter
counter-RollsBack = record {
  rollback-execute = λ state tx outcome next e. sym (ap (λ r. restore r.1) (ok-injective e));
}

abbrev pub params : PubdataParams
params = record {
  pubdata_validator = commitment_scheme blobs_and_pubdata_keccak256;
  pubdata_type = rollup;
}

-- Two transactions, the first of which runs twice, and the empty last block.
abbrev pub blocks : List (L2BlockExecutionData ℕ)
blocks =
    record {
      number = 1;
      timestamp = 10;
      prev_block_hash = 3;
      virtual_blocks = 1;
      txs = 0 ∷ 5 ∷ [];
      interop_roots = [];
    }
    ∷ record {
      number = 2;
      timestamp = 11;
      prev_block_hash = 4;
      virtual_blocks = 0;
      txs = [];
      interop_roots = [];
    }
    ∷ []

abbrev pub version : ProtocolVersionId
version = record { number = 31 }

execute_vm-Runs_example :
    (execute_vm counter blocks (0, []) params version ≡ ok finished
      → Runs counter blocks (0, []) params version finished)
    × (Runs counter blocks (0, []) params version finished
        → execute_vm counter blocks (0, []) params version ≡ ok finished)
execute_vm-Runs_example =
    execute_vm-Runs counter counter-RollsBack blocks (0, []) params version finished
