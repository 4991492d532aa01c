-- ===== src/Batch/Verify.antt =====
-- `verify_commitment` and `Verify::verify` of crates/airbender_verifier/src/lib.rs: what the proof's
-- public input commits to.
use eravm_airbender_verifier.Common.{
  ℕ, Bool, false, Option, none, some, List, [], length, ◌==◌, Outcome, ok, ensure, ◌>>=◌, ◌>>◌,
  commitment_input_missing, zk_porter_mismatch, prev_commitment_mismatch, pubdata_missing,
  blob_hashes_length,
}
use eravm_airbender_verifier.Tree.Types.{H256}
use eravm_airbender_verifier.Tree.Blake2.{Blake2s, hash_bytes}
use eravm_airbender_verifier.Writes.Diffs.{StateDiffRecord}
use eravm_airbender_verifier.Commitment.Defs.{
  Primitives, compute_commitment, compute_proof_public_input, verify_blob_hashes,
}
use eravm_airbender_verifier.Batch.Hashing.{
  L2ToL1Log, serialize_commitments, log_format, state_diff_format, two_states, unwrap_or,
  L1BatchAuxiliaryOutput, post_boojum, L1BatchCommitment, L1BatchCommitmentHash, commitment_hash,
  compute_pass_through_data_hash, expect_hash,
}
use eravm_airbender_verifier.Batch.Env.{
  CommitmentInput, total_blobs_in_commitment, AirbenderVerifierInput,
}
use eravm_airbender_verifier.Batch.Machine.{VmInterface}
use eravm_airbender_verifier.Batch.Execute.{VmExecutionState, execute, context, bool_eqb}

pub record VerificationResult : Type 0 where
  pub value_hash : H256
  pub batch_number : ℕ
  pub proof_public_input : List ℕ
  pub commitment : H256
  pub new_enumeration_index : ℕ
  pub pass_through_data_hash : H256
  pub metadata_hash : H256
  pub auxiliary_output_hash : H256
  pub system_logs_hash : H256
  pub state_diff_hash : H256
  pub bootloader_heap_hash : H256
  pub system_logs : List L2ToL1Log
  pub state_diffs : List StateDiffRecord
  pub pubdata_input : Option (List ℕ)

unfoldable pub zkporter_is_available : Bool
zkporter_is_available = false

module _ (blake2s : Blake2s) (primitives : Primitives) where
  unfoldable pub system_logs_hash_of : VmExecutionState → H256
  unfolding serialize_commitments log_format
  system_logs_hash_of state =
      primitives.keccak256 (serialize_commitments log_format state.system_logs)

  unfoldable pub state_diff_hash_of : VmExecutionState → H256
  unfolding serialize_commitments state_diff_format
  state_diff_hash_of state =
      primitives.keccak256 (serialize_commitments state_diff_format state.state_diffs)

  unfoldable pub heap_hash_of : VmExecutionState → H256
  unfolding hash_bytes
  heap_hash_of state = hash_bytes blake2s state.expanded_heap

  -- The commitment of the batch, from the state and the operator's blob hashes.
  unfoldable pub auxiliary_output_of : VmExecutionState → CommitmentInput → L1BatchAuxiliaryOutput
  unfolding system_logs_hash_of state_diff_hash_of heap_hash_of
  auxiliary_output_of state commitment_input =
      post_boojum (record { l2_l1_logs_merkle_root = 0; protocol_version = state.protocol_version })
        (system_logs_hash_of state) [] (state_diff_hash_of state)
        (record {
          events_queue_commitment = 0;
          bootloader_initial_content_commitment = heap_hash_of state;
        })
        commitment_input.blob_hashes 0 0

  unfoldable pub commitment_of : VmExecutionState → CommitmentInput → L1BatchCommitment
  unfolding auxiliary_output_of
  commitment_of state commitment_input = record {
    pass_through_data = two_states state.new_enumeration_index state.new_root_hash;
    auxiliary_output = auxiliary_output_of state commitment_input;
    meta_parameters = record {
      zkporter_is_available = state.zk_porter_available;
      bootloader_code_hash = state.bootloader_code_hash;
      default_aa_code_hash = state.default_aa_code_hash;
      evm_emulator_code_hash = some (unwrap_or state.evm_emulator_code_hash 0);
      protocol_version = some state.protocol_version;
    };
  }

  unfoldable pub result_of :
      VmExecutionState → CommitmentInput → L1BatchCommitmentHash → VerificationResult
  unfolding system_logs_hash_of state_diff_hash_of heap_hash_of compute_proof_public_input
  result_of state commitment_input hashes = record {
    value_hash = state.new_root_hash;
    batch_number = state.batch_number;
    proof_public_input =
        compute_proof_public_input primitives commitment_input.prev_batch_commitment
          hashes.commitment;
    commitment = hashes.commitment;
    new_enumeration_index = state.new_enumeration_index;
    pass_through_data_hash = hashes.pass_through_data;
    metadata_hash = hashes.meta_parameters;
    auxiliary_output_hash = hashes.aux_output;
    system_logs_hash = system_logs_hash_of state;
    state_diff_hash = state_diff_hash_of state;
    bootloader_heap_hash = heap_hash_of state;
    system_logs = state.system_logs;
    state_diffs = state.state_diffs;
    pubdata_input = state.pubdata_input;
  }

  unfoldable pub verify_commitment : VmExecutionState → CommitmentInput → Outcome VerificationResult
  unfolding zkporter_is_available compute_pass_through_data_hash compute_commitment
      verify_blob_hashes total_blobs_in_commitment commitment_hash commitment_of result_of
  verify_commitment state commitment_input = do
    ensure (bool_eqb state.zk_porter_available zkporter_is_available) zk_porter_mismatch
    prev_passthrough ←
        compute_pass_through_data_hash primitives state.prev_enumeration_index state.old_root_hash
    ensure
        (compute_commitment primitives prev_passthrough commitment_input.prev_meta_hash
            commitment_input.prev_aux_hash
          == commitment_input.prev_batch_commitment)
        prev_commitment_mismatch
    pubdata ← context state.pubdata_input pubdata_missing
    verify_blob_hashes primitives pubdata commitment_input.blob_versioned_hashes
        commitment_input.blob_hashes
    ensure (length commitment_input.blob_hashes == total_blobs_in_commitment) blob_hashes_length
    hashes ← expect_hash (commitment_hash primitives (commitment_of state commitment_input))
    ok (result_of state commitment_input hashes)

module _ (blake2s : Blake2s) (primitives : Primitives) (sha256 : List ℕ → H256)
    (vm : VmInterface) where
  -- `take` leaves the input without its commitment input, which `execute` does not read.
  unfoldable pub verify : AirbenderVerifierInput vm.Transaction → Outcome VerificationResult
  verify input = do
    commitment_input ← context input.commitment_input commitment_input_missing
    state ← execute blake2s sha256 vm (record input { commitment_input = none })
    verify_commitment blake2s primitives state commitment_input
