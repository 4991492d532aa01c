-- ===== src/Batch/Executed.antt =====
-- crates/airbender_verifier/src/lib.rs: what `execute` has done where it succeeds.
use eravm_airbender_verifier.Common.{
  ℕ, ◌≡◌, sym, ap, ◌∙◌, Option, none, some, List, [], ◌∷◌, ok, concat, >>=-eq-ok, ok-injective,
  state_diffs_missing, bootloader_memory_missing,
}
use eravm_airbender_verifier.Tree.Types.{H256}
use eravm_airbender_verifier.Tree.Blake2.{Blake2s, blake2_hasher}
use eravm_airbender_verifier.Witness.Defs.{WitnessInputMerklePaths, normalize_stored_paths}
use eravm_airbender_verifier.Verifier.Defs.{View}
use eravm_airbender_verifier.Verifier.Streaming.{verify_paths_and_new_root}
use eravm_airbender_verifier.Commitment.Defs.{expand_bootloader_heap}
use eravm_airbender_verifier.Bytecode.{verify_bytecode_hash}
use eravm_airbender_verifier.Bytecode.Binding.{IsHashOf, verify_bytecode_hash-IsHashOf}
use eravm_airbender_verifier.Batch.Version.{vm_version, used_bootloader_memory_bytes}
use eravm_airbender_verifier.Batch.Env.{
  SystemContractCode, BaseSystemContracts, AirbenderVerifierInput,
}
use eravm_airbender_verifier.Batch.Machine.{VmInterface, FinishedL1Batch}
use eravm_airbender_verifier.Batch.Execute.{
  VmExecutionState, context, check_environment, check_copies, emulator_hash, storage_of,
  check_emulator, check_bytecodes, factory_deps_of, finish_execution, run_batch, execute_normal,
  execute,
}
use eravm_airbender_verifier.Batch.Pins.{
  context-some, Pinned, check_environment-Pinned, SameCopies, check_copies-SameCopies,
}

module _ (sha256 : List ℕ → H256) where
  abbrev pub EmulatorHolds : Option SystemContractCode → Type 0
  EmulatorHolds none = Unit
  EmulatorHolds (some emulator) = IsHashOf sha256 emulator.hash emulator.code

  -- The system code that the VM loads is the code of its hashes.
  pub record CodesHold (base : BaseSystemContracts) : Type 0 where
    pub bootloader : IsHashOf sha256 base.bootloader.hash base.bootloader.code
    pub default_aa : IsHashOf sha256 base.default_aa.hash base.default_aa.code
    pub emulator : EmulatorHolds base.evm_emulator

  check_emulator-Holds :
      (emulator : Option SystemContractCode) {u : Unit {0}}
      → check_emulator sha256 emulator ≡ ok u
      → EmulatorHolds emulator
  unfolding check_emulator
  check_emulator-Holds none e = tt
  check_emulator-Holds (some emulator) e =
      verify_bytecode_hash-IsHashOf sha256 emulator.hash emulator.code e

  check_bytecodes-CodesHold :
      (base : BaseSystemContracts) {u : Unit {0}}
      → check_bytecodes sha256 base ≡ ok u
      → CodesHold base
  unfolding check_bytecodes
  check_bytecodes-CodesHold base e =
      let (_, boot, e₁) =
        >>=-eq-ok (verify_bytecode_hash sha256 base.bootloader.hash base.bootloader.code) _ e in
      let (_, account, emulator) =
        >>=-eq-ok (verify_bytecode_hash sha256 base.default_aa.hash base.default_aa.code) _ e₁ in
      record {
        bootloader = verify_bytecode_hash-IsHashOf sha256 _ _ boot;
        default_aa = verify_bytecode_hash-IsHashOf sha256 _ _ account;
        emulator = check_emulator-Holds base.evm_emulator emulator;
      }

  -- Every bytecode of the snapshot is the code of its hash.
  abbrev pub DepsHold : List (H256 × List ℕ) → Type 0
  DepsHold [] = Unit
  DepsHold ((hash, code) ∷ deps) = IsHashOf sha256 hash code × DepsHold deps

  factory_deps_of-DepsHold :
      (used : List (ℕ × List (List ℕ))) (deps : List (H256 × List ℕ))
      → factory_deps_of sha256 used ≡ ok deps
      → DepsHold deps
  unfolding factory_deps_of
  factory_deps_of-DepsHold [] deps e = let same : [] ≡ deps = ok-injective e in rw (← same) tt
  factory_deps_of-DepsHold ((claimed, words) ∷ used) deps e =
      let (_, first, e₁) = >>=-eq-ok (verify_bytecode_hash sha256 claimed (concat words)) _ e in
      let (rest, others, e₂) = >>=-eq-ok (factory_deps_of sha256 used) _ e₁ in
      let same : (claimed, concat words) ∷ rest ≡ deps = ok-injective e₂ in
      rw (← same) (
        verify_bytecode_hash-IsHashOf sha256 claimed (concat words) first,
        factory_deps_of-DepsHold used rest others,
      )

-- The bytecodes that the operator supplied, each under the hash that it claimed, in order.
abbrev pub supplied_deps : List (ℕ × List (List ℕ)) → List (H256 × List ℕ)
supplied_deps [] = []
supplied_deps ((claimed, words) ∷ used) = (claimed, concat words) ∷ supplied_deps used

factory_deps_of-supplied :
    (sha256 : List ℕ → H256) (used : List (ℕ × List (List ℕ))) (deps : List (H256 × List ℕ))
    → factory_deps_of sha256 used ≡ ok deps
    → deps ≡ supplied_deps used
unfolding factory_deps_of
factory_deps_of-supplied sha256 [] deps e = sym (ok-injective e)
factory_deps_of-supplied sha256 ((claimed, words) ∷ used) deps e =
    let (_, first, e₁) = >>=-eq-ok (verify_bytecode_hash sha256 claimed (concat words)) _ e in
    let (rest, others, e₂) = >>=-eq-ok (factory_deps_of sha256 used) _ e₁ in
    sym (ok-injective e₂)
    ∙ ap (λ r. (claimed, concat words) ∷ r) (factory_deps_of-supplied sha256 used rest others)

module _ (blake2s : Blake2s) (sha256 : List ℕ → H256) (vm : VmInterface) where
  -- The VM's output, proved: the fields of the state are its fields, the Merkle pass over its logs
  -- leads to the new root, and the heap is its memory.
  pub record Finished (input : AirbenderVerifierInput vm.Transaction)
      (merkle_paths : WitnessInputMerklePaths) (vm_out : FinishedL1Batch) (state : VmExecutionState)
      : Type 0 where
    pub merkle :
        verify_paths_and_new_root blake2s merkle_paths
          vm_out.final_execution_state.deduplicated_storage_logs state.old_root_hash
          merkle_paths.next_enumeration_index
        ≡ ok (state.new_root_hash, state.new_enumeration_index)
    pub prev_index : state.prev_enumeration_index ≡ merkle_paths.next_enumeration_index
    pub number : state.batch_number ≡ input.l1_batch_env.number
    pub version : state.protocol_version ≡ input.system_env.version
    pub porter : state.zk_porter_available ≡ input.system_env.zk_porter_available
    pub bootloader :
        state.bootloader_code_hash ≡ input.system_env.base_system_smart_contracts.bootloader.hash
    pub default_aa :
        state.default_aa_code_hash ≡ input.system_env.base_system_smart_contracts.default_aa.hash
    pub emulator :
        state.evm_emulator_code_hash
        ≡ emulator_hash input.system_env.base_system_smart_contracts.evm_emulator
    pub logs : state.system_logs ≡ vm_out.final_execution_state.system_logs
    pub diffs : vm_out.state_diffs ≡ some state.state_diffs
    pub pubdata : state.pubdata_input ≡ vm_out.pubdata_input
    pub memory : List (ℕ × ℕ)
    pub memory_there : vm_out.final_bootloader_memory ≡ some memory
    pub size : ℕ
    pub size_of : used_bootloader_memory_bytes (vm_version input.system_env.version) ≡ ok size
    pub heap : expand_bootloader_heap memory size ≡ ok state.expanded_heap

  finish_execution-Finished :
      (input : AirbenderVerifierInput vm.Transaction) (merkle_paths : WitnessInputMerklePaths)
      (old_root_hash : H256) (vm_out : FinishedL1Batch) (state : VmExecutionState)
      → finish_execution blake2s sha256 vm input merkle_paths old_root_hash vm_out ≡ ok state
      → Finished input merkle_paths vm_out state × (old_root_hash ≡ state.old_root_hash)
  unfolding finish_execution
  finish_execution-Finished input merkle_paths old_root_hash vm_out state e =
      let (diffs, has_diffs, e₁) = >>=-eq-ok (context vm_out.state_diffs state_diffs_missing) _ e in
      let (memory, has_memory, e₂) =
        >>=-eq-ok (context vm_out.final_bootloader_memory bootloader_memory_missing) _ e₁ in
      let (roots, passed, e₃) =
        >>=-eq-ok
          (verify_paths_and_new_root blake2s merkle_paths
            vm_out.final_execution_state.deduplicated_storage_logs old_root_hash
            merkle_paths.next_enumeration_index)
          _ e₂ in
      let (size, sized, e₄) =
        >>=-eq-ok (used_bootloader_memory_bytes (vm_version input.system_env.version)) _ e₃ in
      let (heap, expanded, e₅) = >>=-eq-ok (expand_bootloader_heap memory size) _ e₄ in
      let same = ok-injective e₅ in
      (
        record {
          merkle =
              ap
                (λ root.
                  verify_paths_and_new_root blake2s merkle_paths
                    vm_out.final_execution_state.deduplicated_storage_logs root
                    merkle_paths.next_enumeration_index)
                (sym (ap (λ s. s.old_root_hash) same))
              ∙ (passed ∙ ap (λ s. ok (s.new_root_hash, s.new_enumeration_index)) same);
          prev_index = sym (ap (λ s. s.prev_enumeration_index) same);
          number = sym (ap (λ s. s.batch_number) same);
          version = sym (ap (λ s. s.protocol_version) same);
          porter = sym (ap (λ s. s.zk_porter_available) same);
          bootloader = sym (ap (λ s. s.bootloader_code_hash) same);
          default_aa = sym (ap (λ s. s.default_aa_code_hash) same);
          emulator = sym (ap (λ s. s.evm_emulator_code_hash) same);
          logs = sym (ap (λ s. s.system_logs) same);
          diffs = context-some vm_out.state_diffs _ has_diffs ∙ ap (λ s. some s.state_diffs) same;
          pubdata = sym (ap (λ s. s.pubdata_input) same);
          memory = memory;
          memory_there = context-some vm_out.final_bootloader_memory _ has_memory;
          size = size;
          size_of = sized;
          heap = expanded ∙ ap (λ s. ok s.expanded_heap) same;
        },
        ap (λ s. s.old_root_hash) same,
      )

  -- What `execute` has done where it succeeds: the witness was normalized, the environment checked, the
  -- bytecodes checked, and the VM run over the storage of the witness to an output that was proved.
  pub record Executed (input : AirbenderVerifierInput vm.Transaction) (state : VmExecutionState)
      : Type 0 where
    pub merkle_paths : WitnessInputMerklePaths
    pub counts : ℕ × ℕ
    pub normalized :
        normalize_stored_paths (blake2_hasher blake2s) input.merkle_paths
        ≡ ok (merkle_paths, counts)
    pub pinned : Pinned input state.old_root_hash
    pub codes : CodesHold sha256 input.system_env.base_system_smart_contracts
    pub copies : SameCopies input.vm_run_data input.system_env.base_system_smart_contracts
    pub storage : View
    pub storage_is :
        storage_of blake2s merkle_paths input.vm_run_data.witness_block_state ≡ ok storage
    pub factory_deps : List (H256 × List ℕ)
    pub factory_deps_are : factory_deps ≡ supplied_deps input.vm_run_data.used_bytecodes
    pub deps : DepsHold sha256 factory_deps
    pub vm_out : FinishedL1Batch
    pub ran :
        run_batch blake2s sha256 vm input
          (record { storage = storage; factory_deps = factory_deps })
        ≡ ok vm_out
    pub finished : Finished input merkle_paths vm_out state

  -- Where `execute` succeeds, the witness was normalized; the protocol version, the batch number, the
  -- validator of the pubdata, the execution mode, the validation gas limit, the absence of an enforced
  -- base fee and the first block are as `Pinned` says; the bootloader's, the default account's and the
  -- emulator's code is the code of its hash, and the redundant copies agree; and the VM ran over the
  -- storage of the normalized witness and over exactly the supplied bytecodes, each the code of its
  -- hash, to an output whose logs the Merkle pass accepted and whose fields, with the checked hashes,
  -- are the state's. The zkPorter flag, the pubdata type, the fee input and the content of the VM's
  -- output are not constrained here.
  pub execute-Executed :
      (input : AirbenderVerifierInput vm.Transaction) (state : VmExecutionState)
      → execute blake2s sha256 vm input ≡ ok state
      → Executed input state
  unfolding execute execute_normal
  execute-Executed input state e =
      let base = input.system_env.base_system_smart_contracts in
      let (normal, normalized, e₁) =
        >>=-eq-ok (normalize_stored_paths (blake2_hasher blake2s) input.merkle_paths) _ e in
      let (root, checked, e₂) = >>=-eq-ok (check_environment input) _ e₁ in
      let (_, codes, e₃) = >>=-eq-ok (check_bytecodes sha256 base) _ e₂ in
      let (_, copies, e₄) = >>=-eq-ok (check_copies input.vm_run_data base) _ e₃ in
      let (storage, built, e₅) =
        >>=-eq-ok (storage_of blake2s normal.0 input.vm_run_data.witness_block_state) _ e₄ in
      let (deps, deps_checked, e₆) =
        >>=-eq-ok (factory_deps_of sha256 input.vm_run_data.used_bytecodes) _ e₅ in
      let (vm_out, ran, e₇) =
        >>=-eq-ok
          (run_batch blake2s sha256 vm input (record { storage = storage; factory_deps = deps })) _
          e₆ in
      let (finished, same_root) = finish_execution-Finished input normal.0 root vm_out state e₇ in
      record {
        merkle_paths = normal.0;
        counts = normal.1;
        normalized = normalized;
        pinned = check_environment-Pinned input state.old_root_hash (checked ∙ ap ok same_root);
        codes = check_bytecodes-CodesHold sha256 base codes;
        copies = check_copies-SameCopies input.vm_run_data base copies;
        storage = storage;
        storage_is = built;
        factory_deps = deps;
        factory_deps_are = factory_deps_of-supplied sha256 _ deps deps_checked;
        deps = factory_deps_of-DepsHold sha256 _ deps deps_checked;
        vm_out = vm_out;
        ran = ran;
        finished = finished;
      }
