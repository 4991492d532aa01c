-- ===== src/Tests/Execution.antt =====
-- The batch of two logs through `execute`, with the counting VM, and through `verify`.
use eravm_airbender_verifier.Common.{
  ℕ, ◌+◌, ◌^◌, ◌≡◌, refl, sym, ap, false, none, some, List, [], ◌∷◌, ok, arith, ok-injective,
  replicate, length, length-replicate,
}
use eravm_airbender_verifier.Bytes.{be_bytes, be_value, le_bytes}
use eravm_airbender_verifier.Tree.Types.{H256}
use eravm_airbender_verifier.Tree.Blake2.{blake2_hasher, empty_subtree_prefix_len, empty_run}
use eravm_airbender_verifier.Witness.Defs.{
  normalize_stored_paths, check_lengths, decode_legacy, trim_logs,
}
use eravm_airbender_verifier.Storage.Log.{StorageKey, hashed_key, raw_hashed_key}
use eravm_airbender_verifier.Verifier.Defs.{View}
use eravm_airbender_verifier.Commitment.Defs.{expand_bootloader_heap, write_words}
use eravm_airbender_verifier.Bytecode.{new_marker, verify_bytecode_hash}
use eravm_airbender_verifier.Batch.Version.{
  vm_version, used_bootloader_memory_bytes, latest, is_supported_by_fast_vm,
}
use eravm_airbender_verifier.Batch.Env.{
  from_l2_block_data, SystemContractCode, BaseSystemContracts, SystemEnv, verify_execute,
  L1BatchEnv, l1_pegged, l1, VmRunWitnessInputData, AirbenderVerifierInput,
}
use eravm_airbender_verifier.Batch.Machine.{
  execute_vm, last_block_is_empty, execute_blocks, execute_txs, execute_tx, after_compressed,
  execute_uncompressed, ensure_not_halted,
}
use eravm_airbender_verifier.Batch.Execute.{
  VmExecutionState, check_environment, check_copies, check_bytecodes, storage_of, factory_deps_of,
  run_batch, finish_execution, execute_normal, execute,
}
use eravm_airbender_verifier.Batch.Executed.{Executed, execute-Executed}
use eravm_airbender_verifier.Batch.Sound.{ProvesBatch, execute_sound}
use eravm_airbender_verifier.Tests.Toy.{toy, toy-FoldsDigest, toy-ReturnsWords, tree_root-toy}
use eravm_airbender_verifier.Tests.Batch.{
  key, one_entry, one_entry-InRange, one_entry_accepted, no_leaves, no_leaves-InRange,
}
use eravm_airbender_verifier.Tests.Machine.{
  counter, counter-RollsBack, params, blocks, version, finished,
}

abbrev pub no_digest : List ℕ → H256
no_digest bytes = 0

-- One word of zeros, and its hash: the marker 1, and the length 1.
abbrev contract : SystemContractCode
contract = record { code = replicate 32 0; hash = 2 ^ 248 + 2 ^ 224 }

abbrev contracts : BaseSystemContracts
contracts = record { bootloader = contract; default_aa = contract; evm_emulator = none }

abbrev system_env : SystemEnv
system_env = record {
  zk_porter_available = false;
  version = version;
  base_system_smart_contracts = contracts;
  bootloader_gas_limit = 4294967295;
  execution_mode = verify_execute;
  default_validation_computational_gas_limit = 4294967295;
  chain_id = 270;
}

abbrev batch_env : L1BatchEnv
batch_env = record {
  previous_batch_hash = some 64;
  number = 7;
  timestamp = 10;
  fee_input = l1_pegged 1 1;
  interop_fee = 0;
  fee_account = 5;
  enforced_base_fee = none;
  first_l2_block = record {
    number = 1;
    timestamp = 10;
    prev_block_hash = 3;
    max_virtual_blocks_to_create = 1;
    interop_roots = [];
  };
  settlement_layer = l1 1;
}

-- A slot that is declared, but has no witness.
abbrev other_key : StorageKey
other_key = record { address = 1; key = 3 }

abbrev run_data : VmRunWitnessInputData
run_data = record {
  l1_batch_number = 7;
  used_bytecodes = [];
  initial_heap_content = [];
  protocol_version = version;
  bootloader_code = replicate 32 0 ∷ [];
  default_account_code_hash = 2 ^ 248 + 2 ^ 224;
  evm_emulator_code_hash = none;
  storage_refunds = [];
  pubdata_costs = [];
  witness_block_state = record {
    read_storage_key = (key, 0) ∷ (other_key, 0) ∷ [];
    is_write_initial = [];
  };
}

abbrev pub input : AirbenderVerifierInput ℕ
input = record {
  vm_run_data = run_data;
  merkle_paths = one_entry;
  l2_blocks_execution_data = blocks;
  l1_batch_env = batch_env;
  system_env = system_env;
  pubdata_params = params;
  commitment_input = none;
}

contract_accepted : verify_bytecode_hash no_digest contract.hash contract.code ≡ ok tt
unfolding verify_bytecode_hash be_bytes be_value new_marker
contract_accepted = refl

normalized : normalize_stored_paths (blake2_hasher toy) one_entry ≡ ok (one_entry, (0, 0))
unfolding normalize_stored_paths check_lengths decode_legacy trim_logs empty_subtree_prefix_len
    empty_run
normalized = refl

pinned : check_environment input ≡ ok 64
unfolding check_environment latest is_supported_by_fast_vm
pinned = refl

copies : check_copies run_data contracts ≡ ok tt
unfolding check_copies
copies = refl

-- With the digest of the toy hasher, every slot has one key.
abbrev storage : View
storage = (64, none) ∷ []

stored : storage_of toy one_entry run_data.witness_block_state ≡ ok storage
unfolding storage_of hashed_key raw_hashed_key be_bytes be_value le_bytes
stored = refl

-- The bootloader's memory, of which the VM wrote nothing.
zeros : ℕ → List ℕ
zeros n = replicate n 0

length-zeros : (n : ℕ) → length (zeros n) ≡ n
unfolding zeros
length-zeros n = length-replicate n 0

pub heap : List ℕ
heap = zeros 63800000

pub length-heap : length heap ≡ 63800000
unfolding heap
length-heap = length-zeros 63800000

expanded : expand_bootloader_heap [] 63800000 ≡ ok heap
unfolding expand_bootloader_heap write_words heap zeros
expanded = refl

ran :
    run_batch toy no_digest counter input (record { storage = storage; factory_deps = [] })
    ≡ ok finished
unfolding run_batch execute_vm last_block_is_empty execute_blocks execute_txs execute_tx
    after_compressed execute_uncompressed ensure_not_halted from_l2_block_data
ran = refl

abbrev pub state : VmExecutionState
state = record {
  batch_number = 7;
  protocol_version = version;
  old_root_hash = 64;
  prev_enumeration_index = 1;
  new_root_hash = 64;
  new_enumeration_index = 2;
  system_logs = finished.final_execution_state.system_logs;
  state_diffs = [];
  pubdata_input = some [];
  expanded_heap = heap;
  zk_porter_available = false;
  bootloader_code_hash = 2 ^ 248 + 2 ^ 224;
  default_aa_code_hash = 2 ^ 248 + 2 ^ 224;
  evm_emulator_code_hash = none;
}

codes : check_bytecodes no_digest contracts ≡ ok tt
unfolding check_bytecodes
codes = rw (contract_accepted) refl

ended : finish_execution toy no_digest counter input one_entry 64 finished ≡ ok state
unfolding finish_execution used_bootloader_memory_bytes vm_version
ended = rw (one_entry_accepted, expanded) refl

pub accepted : execute toy no_digest counter input ≡ ok state
unfolding execute execute_normal factory_deps_of
accepted = rw (normalized, pinned, codes, copies, stored, ran, ended) refl

execute_sound_example : ProvesBatch toy no_digest counter input no_leaves state
execute_sound_example =
    execute_sound toy no_digest counter input no_leaves state counter-RollsBack
      (λ state params version out e. rw (← ok-injective e) (omega arith, tt)) toy-FoldsDigest
      toy-ReturnsWords one_entry-InRange no_leaves-InRange (ap some (sym (tree_root-toy no_leaves)))
      accepted

execute-Executed_example : Executed toy no_digest counter input state
execute-Executed_example = execute-Executed toy no_digest counter input state accepted
