-- ===== src/Batch/Execute.antt =====
-- `execute` of crates/airbender_verifier/src/lib.rs: the checks of the input in their order, the run
-- of the VM over the storage of the witness, and the Merkle pass over its logs.
use eravm_airbender_verifier.Common.{
  ℕ, ◌-◌, ◌^◌, Bool, true, false, ◌&&◌, Option, none, some, List, [], ◌∷◌, map, ◌++◌, ◌==◌,
  list_eqb, concat, Outcome, ok, err, ensure, ◌>>=◌, ◌>>◌, Error, unsupported_protocol_version,
  unsupported_by_fast_vm, previous_batch_hash_missing, enforced_base_fee_present,
  batch_number_mismatch, protocol_version_mismatch, incompatible_pubdata_validator,
  wrong_execution_mode, wrong_validation_gas_limit, first_l2_block_mismatch,
  default_account_mismatch, evm_emulator_mismatch, bootloader_code_mismatch, state_diffs_missing,
  bootloader_memory_missing,
}
use eravm_airbender_verifier.Tree.Types.{H256}
use eravm_airbender_verifier.Tree.Blake2.{Blake2s, blake2_hasher}
use eravm_airbender_verifier.Witness.Defs.{WitnessInputMerklePaths, normalize_stored_paths}
use eravm_airbender_verifier.Storage.Log.{StorageKey, hashed_key}
use eravm_airbender_verifier.Verifier.Defs.{View, PreState, lookup, build_view_from_merkle_paths}
use eravm_airbender_verifier.Verifier.Streaming.{verify_paths_and_new_root}
use eravm_airbender_verifier.Commitment.Defs.{expand_bootloader_heap}
use eravm_airbender_verifier.Writes.Diffs.{StateDiffRecord}
use eravm_airbender_verifier.Bytecode.{verify_bytecode_hash}
use eravm_airbender_verifier.Batch.Version.{
  ProtocolVersionId, latest, version_eqb, is_supported_by_fast_vm, is_pre_medium_interop,
  vm_version, used_bootloader_memory_bytes,
}
use eravm_airbender_verifier.Batch.Hashing.{L2ToL1Log}
use eravm_airbender_verifier.Batch.Env.{
  SystemContractCode, BaseSystemContracts, is_verify_execute, interop_root_eqb, L2BlockEnv,
  L2BlockExecutionData, is_address, WitnessStorageState, VmRunWitnessInputData,
  AirbenderVerifierInput,
}
use eravm_airbender_verifier.Batch.Machine.{
  VmInterface, StorageSnapshot, FinishedL1Batch, execute_vm,
}

pub record VmExecutionState : Type 0 where
  pub batch_number : ℕ
  pub protocol_version : ProtocolVersionId
  pub old_root_hash : H256
  pub prev_enumeration_index : ℕ
  pub new_root_hash : H256
  pub new_enumeration_index : ℕ
  pub system_logs : List L2ToL1Log
  pub state_diffs : List StateDiffRecord
  pub pubdata_input : Option (List ℕ)
  pub expanded_heap : List ℕ
  pub zk_porter_available : Bool
  pub bootloader_code_hash : H256
  pub default_aa_code_hash : H256
  pub evm_emulator_code_hash : Option H256

-- `u32::MAX`
unfoldable pub validation_computational_gas_limit : ℕ
validation_computational_gas_limit = 2 ^ 32 - 1

-- `.context(..)` on an option.
abbrev pub context {ℓ} : {A : Type ℓ} → Option A → Error → Outcome A
context none message = err message
context (some a) message = ok a

abbrev pub is_none {ℓ} : {A : Type ℓ} → Option A → Bool
is_none none = true
is_none (some a) = false

abbrev pub option_eqb : Option ℕ → Option ℕ → Bool
option_eqb none none = true
option_eqb none (some b) = false
option_eqb (some a) none = false
option_eqb (some a) (some b) = a == b

abbrev pub bool_eqb : Bool → Bool → Bool
bool_eqb true b = b
bool_eqb false true = false
bool_eqb false false = true

module _ {Transaction : Type 0} where
  unfoldable pub same_first_block : L2BlockExecutionData Transaction → L2BlockEnv → Bool
  same_first_block first canonical =
      (first.number == canonical.number)
      && ((first.timestamp == canonical.timestamp)
          && ((first.prev_block_hash == canonical.prev_block_hash)
              && ((first.virtual_blocks == canonical.max_virtual_blocks_to_create)
                  && list_eqb interop_root_eqb first.interop_roots canonical.interop_roots)))

  unfoldable pub first_block_matches : List (L2BlockExecutionData Transaction) → L2BlockEnv → Bool
  unfolding same_first_block
  first_block_matches [] canonical = true
  first_block_matches (first ∷ blocks) canonical = same_first_block first canonical

  -- From the version pin to the first block, with the old root as the result.
  unfoldable pub check_environment : AirbenderVerifierInput Transaction → Outcome H256
  unfolding latest is_supported_by_fast_vm is_pre_medium_interop first_block_matches
      validation_computational_gas_limit
  check_environment input = do
    let env = input.system_env
    let batch = input.l1_batch_env
    ensure (version_eqb env.version latest) unsupported_protocol_version
    ensure (is_supported_by_fast_vm env.version) unsupported_by_fast_vm
    old_root_hash ← context batch.previous_batch_hash previous_batch_hash_missing
    ensure (is_none batch.enforced_base_fee) enforced_base_fee_present
    ensure (input.vm_run_data.l1_batch_number == batch.number) batch_number_mismatch
    ensure (version_eqb input.vm_run_data.protocol_version env.version) protocol_version_mismatch
    ensure
        (bool_eqb (is_pre_medium_interop env.version)
          (is_address input.pubdata_params.pubdata_validator))
        incompatible_pubdata_validator
    ensure (is_verify_execute env.execution_mode) wrong_execution_mode
    ensure (env.default_validation_computational_gas_limit == validation_computational_gas_limit)
        wrong_validation_gas_limit
    ensure (first_block_matches input.l2_blocks_execution_data batch.first_l2_block)
        first_l2_block_mismatch
    ok old_root_hash

-- `base.evm_emulator.as_ref().map(|e| e.hash)`
abbrev pub emulator_hash : Option SystemContractCode → Option H256
emulator_hash none = none
emulator_hash (some emulator) = some emulator.hash

-- The redundant copies of `vm_run_data`.
unfoldable pub check_copies : VmRunWitnessInputData → BaseSystemContracts → Outcome (Unit {0})
check_copies run base = do
  ensure (run.default_account_code_hash == base.default_aa.hash) default_account_mismatch
  ensure (option_eqb run.evm_emulator_code_hash (emulator_hash base.evm_emulator))
      evm_emulator_mismatch
  ensure (list_eqb ◌==◌ (concat run.bootloader_code) base.bootloader.code) bootloader_code_mismatch

-- `entry(..).or_insert(None)`
abbrev pub or_insert : H256 → View → Option PreState → View
or_insert key view none = (key, none) ∷ view
or_insert key view (some old) = view

abbrev pub first_of {ℓ} : {A : Type 0} {B : Type ℓ} → A × B → A
first_of (a, b) = a

-- Every declared slot that the witness does not cover is empty.
unfoldable pub or_insert_none : H256 → View → View
unfolding lookup
or_insert_none key view = or_insert key view (lookup key view)

module _ (blake2s : Blake2s) where
  unfoldable pub materialize : List StorageKey → View → View
  unfolding or_insert_none hashed_key
  materialize [] view = view
  materialize (key ∷ keys) view = materialize keys (or_insert_none (hashed_key blake2s key) view)

  -- The storage before the batch: the witness, then the declared keys.
  unfoldable pub storage_of : WitnessInputMerklePaths → WitnessStorageState → Outcome View
  unfolding build_view_from_merkle_paths materialize
  storage_of witness declared = do
    view ← build_view_from_merkle_paths witness.merkle_paths
    ok (
        materialize
          (map first_of declared.read_storage_key ++ map first_of declared.is_write_initial) view)

module _ (sha256 : List ℕ → H256) where
  unfoldable pub check_emulator : Option SystemContractCode → Outcome (Unit {0})
  unfolding verify_bytecode_hash
  check_emulator none = ok tt
  check_emulator (some emulator) = verify_bytecode_hash sha256 emulator.hash emulator.code

  unfoldable pub check_bytecodes : BaseSystemContracts → Outcome (Unit {0})
  unfolding verify_bytecode_hash check_emulator
  check_bytecodes base = do
    verify_bytecode_hash sha256 base.bootloader.hash base.bootloader.code
    verify_bytecode_hash sha256 base.default_aa.hash base.default_aa.code
    check_emulator base.evm_emulator

  unfoldable pub factory_deps_of : List (ℕ × List (List ℕ)) → Outcome (List (H256 × List ℕ))
  unfolding verify_bytecode_hash
  factory_deps_of [] = ok []
  factory_deps_of ((claimed_hash, words) ∷ used_bytecodes) = do
    verify_bytecode_hash sha256 claimed_hash (concat words)
    rest ← factory_deps_of used_bytecodes
    ok ((claimed_hash, concat words) ∷ rest)

module _ (blake2s : Blake2s) (sha256 : List ℕ → H256) (vm : VmInterface) where
  -- After the run: the fields of the VM's output, the Merkle pass, and the bootloader's heap.
  unfoldable pub finish_execution :
      AirbenderVerifierInput vm.Transaction
      → WitnessInputMerklePaths
      → H256
      → FinishedL1Batch
      → Outcome VmExecutionState
  finish_execution input merkle_paths old_root_hash vm_out = do
    let base = input.system_env.base_system_smart_contracts
    let enumeration_index = merkle_paths.next_enumeration_index
    state_diffs ← context vm_out.state_diffs state_diffs_missing
    final_bootloader_memory ← context vm_out.final_bootloader_memory bootloader_memory_missing
    (new_root_hash, new_enumeration_index) ←
        verify_paths_and_new_root blake2s merkle_paths
          vm_out.final_execution_state.deduplicated_storage_logs old_root_hash enumeration_index
    bootloader_memory_size ← used_bootloader_memory_bytes (vm_version input.system_env.version)
    expanded_heap ← expand_bootloader_heap final_bootloader_memory bootloader_memory_size
    ok (record {
      batch_number = input.l1_batch_env.number;
      protocol_version = input.system_env.version;
      old_root_hash = old_root_hash;
      prev_enumeration_index = enumeration_index;
      new_root_hash = new_root_hash;
      new_enumeration_index = new_enumeration_index;
      system_logs = vm_out.final_execution_state.system_logs;
      state_diffs = state_diffs;
      pubdata_input = vm_out.pubdata_input;
      expanded_heap = expanded_heap;
      zk_porter_available = input.system_env.zk_porter_available;
      bootloader_code_hash = base.bootloader.hash;
      default_aa_code_hash = base.default_aa.hash;
      evm_emulator_code_hash = emulator_hash base.evm_emulator;
    })

  -- The run over the snapshot of the witness.
  unfoldable pub run_batch :
      AirbenderVerifierInput vm.Transaction → StorageSnapshot → Outcome FinishedL1Batch
  run_batch input snapshot =
      execute_vm vm input.l2_blocks_execution_data
        (vm.new_vm input.l1_batch_env input.system_env snapshot) input.pubdata_params
        input.system_env.version

  -- After the normalization.
  unfoldable pub execute_normal :
      AirbenderVerifierInput vm.Transaction → WitnessInputMerklePaths → Outcome VmExecutionState
  execute_normal input merkle_paths = do
    old_root_hash ← check_environment input
    let base = input.system_env.base_system_smart_contracts
    check_bytecodes sha256 base
    check_copies input.vm_run_data base
    storage ← storage_of blake2s merkle_paths input.vm_run_data.witness_block_state
    factory_deps ← factory_deps_of sha256 input.vm_run_data.used_bytecodes
    vm_out ← run_batch input (record { storage = storage; factory_deps = factory_deps })
    finish_execution input merkle_paths old_root_hash vm_out

  unfoldable pub execute : AirbenderVerifierInput vm.Transaction → Outcome VmExecutionState
  execute input = do
    (merkle_paths, counts) ← normalize_stored_paths (blake2_hasher blake2s) input.merkle_paths
    execute_normal input merkle_paths
