-- ===== src/Batch/Committed.antt =====
-- crates/airbender_verifier/src/lib.rs and crates/types/src/commitment/mod.rs: two verified batches of
-- one commitment.
use eravm_airbender_verifier.Common.{
  ℕ, ◌≡◌, ◌⊎◌, inr, List, refl, sym, ap, ◌∙◌, true, ok, arith, length,
}
use eravm_airbender_verifier.Tree.Blake2.{Blake2s}
use eravm_airbender_verifier.Tree.Roots.{IsWord}
use eravm_airbender_verifier.Commitment.Defs.{Primitives}
use eravm_airbender_verifier.Commitment.Keccak.{
  Collides, commitment_preimage, ReturnsHashes, unless_collision, keccak_injective, field_injective,
}
use eravm_airbender_verifier.Batch.Version.{is_post_1_5_0}
use eravm_airbender_verifier.Batch.Hashing.{
  unwrap_or, meta_bytes, root_state_bytes, two_states, L1BatchCommitmentHash, meta_hash, aux_bytes,
  aux_hash, serialize_commitments, log_format, state_diff_format,
}
use eravm_airbender_verifier.Batch.Env.{CommitmentInput}
use eravm_airbender_verifier.Batch.Execute.{VmExecutionState}
use eravm_airbender_verifier.Batch.Verify.{
  VerificationResult, heap_hash_of, system_logs_hash_of, state_diff_hash_of, auxiliary_output_of,
  commitment_of, verify_commitment, result_of,
}
use eravm_airbender_verifier.Batch.Binding.{
  StateInRange, verify_commitment-Settles, result_commitment, compute_commitment-injective,
  pass_hash-injective,
}
use eravm_airbender_verifier.Batch.Settlement.{pass_hash, hashes_of}
use eravm_airbender_verifier.Batch.Preimages.{
  BlobsInRange, blob_hash_bytes-injective, meta_bytes-injective,
}

abbrev pub preimage_of : L1BatchCommitmentHash → List ℕ
preimage_of h = commitment_preimage h.pass_through_data h.meta_parameters h.aux_output

-- The machine ranges of what a batch commits to.
pub record CommittedInRange (blake2s : Blake2s) (primitives : Primitives) (state : VmExecutionState)
    (claim : CommitmentInput) : Type 0 where
  pub state_InRange : StateInRange state
  pub bootloader_IsWord : IsWord state.bootloader_code_hash
  pub default_aa_IsWord : IsWord state.default_aa_code_hash
  pub emulator_IsWord : IsWord (unwrap_or state.evm_emulator_code_hash 0)
  pub heap_hash_IsWord : IsWord (heap_hash_of blake2s primitives state)
  pub blobs_InRange : BlobsInRange claim.blob_hashes

-- Two batches that commit to the same: the state that they lead to, the code that they ran, what they
-- sent to L1, the diffs of the state, the bootloader's heap and the blobs.
pub record SameCommitted (blake2s : Blake2s) (primitives : Primitives)
    (state state' : VmExecutionState) (claim claim' : CommitmentInput) : Type 0 where
  pub same_root : state.new_root_hash ≡ state'.new_root_hash
  pub same_index : state.new_enumeration_index ≡ state'.new_enumeration_index
  pub same_bootloader : state.bootloader_code_hash ≡ state'.bootloader_code_hash
  pub same_default_aa : state.default_aa_code_hash ≡ state'.default_aa_code_hash
  pub same_emulator :
      unwrap_or state.evm_emulator_code_hash 0 ≡ unwrap_or state'.evm_emulator_code_hash 0
  pub same_system_logs :
      serialize_commitments log_format state.system_logs
      ≡ serialize_commitments log_format state'.system_logs
  pub same_state_diffs :
      serialize_commitments state_diff_format state.state_diffs
      ≡ serialize_commitments state_diff_format state'.state_diffs
  pub same_heap : heap_hash_of blake2s primitives state ≡ heap_hash_of blake2s primitives state'
  pub same_blobs : claim.blob_hashes ≡ claim'.blob_hashes

-- Two batches against each other: one of the inputs that their commitments hash differs, at one place,
-- and has the same hash.
pub data CommitmentCollision (blake2s : Blake2s) (primitives : Primitives)
    (state state' : VmExecutionState) (claim claim' : CommitmentInput) : Type 0 where
  commitments_collide :
      Collides primitives
        (preimage_of (hashes_of blake2s primitives state claim))
        (preimage_of (hashes_of blake2s primitives state' claim'))
      → CommitmentCollision blake2s primitives state state' claim claim'
  pass_through_collides :
      Collides primitives
        (root_state_bytes (two_states state.new_enumeration_index state.new_root_hash))
        (root_state_bytes (two_states state'.new_enumeration_index state'.new_root_hash))
      → CommitmentCollision blake2s primitives state state' claim claim'
  meta_parameters_collide :
      Collides primitives
        (meta_bytes (commitment_of blake2s primitives state claim).meta_parameters)
        (meta_bytes (commitment_of blake2s primitives state' claim').meta_parameters)
      → CommitmentCollision blake2s primitives state state' claim claim'
  auxiliary_output_collides :
      Collides primitives
        (aux_bytes (auxiliary_output_of blake2s primitives state claim))
        (aux_bytes (auxiliary_output_of blake2s primitives state' claim'))
      → CommitmentCollision blake2s primitives state state' claim claim'
  system_logs_collide :
      Collides primitives
        (serialize_commitments log_format state.system_logs)
        (serialize_commitments log_format state'.system_logs)
      → CommitmentCollision blake2s primitives state state' claim claim'
  state_diffs_collide :
      Collides primitives
        (serialize_commitments state_diff_format state.state_diffs)
        (serialize_commitments state_diff_format state'.state_diffs)
      → CommitmentCollision blake2s primitives state state' claim claim'

module _ (blake2s : Blake2s) (primitives : Primitives) (hashes : ReturnsHashes primitives) where
  -- The bytes of the auxiliary output tell its hashes and the blobs apart.
  aux_bytes-injective :
      (state state' : VmExecutionState) (claim claim' : CommitmentInput)
      → CommittedInRange blake2s primitives state claim
      → CommittedInRange blake2s primitives state' claim'
      → length claim.blob_hashes ≡ length claim'.blob_hashes
      → aux_bytes (auxiliary_output_of blake2s primitives state claim)
        ≡ aux_bytes (auxiliary_output_of blake2s primitives state' claim')
      → (system_logs_hash_of blake2s primitives state
          ≡ system_logs_hash_of blake2s primitives state')
        × ((state_diff_hash_of blake2s primitives state
              ≡ state_diff_hash_of blake2s primitives state')
            × ((heap_hash_of blake2s primitives state ≡ heap_hash_of blake2s primitives state')
                × (claim.blob_hashes ≡ claim'.blob_hashes)))
  unfolding aux_bytes auxiliary_output_of system_logs_hash_of state_diff_hash_of
  aux_bytes-injective state state' claim claim' range range' len e =
      let (logs, rest) = field_injective 32 _ _ (hashes _) (hashes _) e in
      let (diffs, rest₂) = field_injective 32 _ _ (hashes _) (hashes _) rest in
      let (heap, rest₃) =
        field_injective 32 _ _ range.heap_hash_IsWord range'.heap_hash_IsWord rest₂ in
      let (_, rest₄) = field_injective 32 0 0 (omega arith) (omega arith) rest₃ in
      (
        logs,
        (
          diffs,
          (
            heap,
            blob_hash_bytes-injective claim.blob_hashes claim'.blob_hashes range.blobs_InRange
                range'.blobs_InRange len rest₄,
          ),
        ),
      )

  aux_hash-injective :
      (state state' : VmExecutionState) (claim claim' : CommitmentInput)
      → CommittedInRange blake2s primitives state claim
      → CommittedInRange blake2s primitives state' claim'
      → length claim.blob_hashes ≡ length claim'.blob_hashes
      → aux_hash primitives (auxiliary_output_of blake2s primitives state claim)
        ≡ aux_hash primitives (auxiliary_output_of blake2s primitives state' claim')
      → CommitmentCollision blake2s primitives state state' claim claim'
        ⊎ ((serialize_commitments log_format state.system_logs
              ≡ serialize_commitments log_format state'.system_logs)
            × ((serialize_commitments state_diff_format state.state_diffs
                  ≡ serialize_commitments state_diff_format state'.state_diffs)
                × ((heap_hash_of blake2s primitives state ≡ heap_hash_of blake2s primitives state')
                    × (claim.blob_hashes ≡ claim'.blob_hashes))))
  unfolding aux_hash system_logs_hash_of state_diff_hash_of
  aux_hash-injective state state' claim claim' range range' len e =
      unless_collision auxiliary_output_collides (keccak_injective primitives _ _ e) λ bytes.
        let (logs, (diffs, others)) =
          aux_bytes-injective state state' claim claim' range range' len bytes in
        unless_collision system_logs_collide (keccak_injective primitives _ _ logs) λ same_logs.
          unless_collision state_diffs_collide (keccak_injective primitives _ _ diffs)
            λ same_diffs. inr (same_logs, (same_diffs, others))

  meta_hash-injective :
      (state state' : VmExecutionState) (claim claim' : CommitmentInput)
      → CommittedInRange blake2s primitives state claim
      → CommittedInRange blake2s primitives state' claim'
      → is_post_1_5_0 state.protocol_version ≡ true
      → is_post_1_5_0 state'.protocol_version ≡ true
      → meta_hash primitives (commitment_of blake2s primitives state claim).meta_parameters
        ≡ meta_hash primitives (commitment_of blake2s primitives state' claim').meta_parameters
      → CommitmentCollision blake2s primitives state state' claim claim'
        ⊎ ((state.bootloader_code_hash ≡ state'.bootloader_code_hash)
            × ((state.default_aa_code_hash ≡ state'.default_aa_code_hash)
                × (unwrap_or state.evm_emulator_code_hash 0
                    ≡ unwrap_or state'.evm_emulator_code_hash 0)))
  unfolding meta_hash commitment_of
  meta_hash-injective state state' claim claim' range range' post post' e =
      unless_collision meta_parameters_collide (keccak_injective primitives _ _ e) λ bytes. inr (
        meta_bytes-injective (commitment_of blake2s primitives state claim).meta_parameters
          (commitment_of blake2s primitives state' claim').meta_parameters _ _ refl refl post post'
          range.bootloader_IsWord range'.bootloader_IsWord range.default_aa_IsWord
          range'.default_aa_IsWord range.emulator_IsWord range'.emulator_IsWord bytes)

  -- Two accepted batches of one commitment, both of protocol versions with an emulator slot and in
  -- their machine ranges, have the same new root and index, code hashes, system logs and state diffs
  -- as serialized, bootloader heap hash and blob hashes, or one of the inputs that the two commitments
  -- hash differs at its place and has the same hash.
  pub verify_commitment-binds :
      (state state' : VmExecutionState) (claim claim' : CommitmentInput)
      (result result' : VerificationResult)
      → CommittedInRange blake2s primitives state claim
      → CommittedInRange blake2s primitives state' claim'
      → is_post_1_5_0 state.protocol_version ≡ true
      → is_post_1_5_0 state'.protocol_version ≡ true
      → verify_commitment blake2s primitives state claim ≡ ok result
      → verify_commitment blake2s primitives state' claim' ≡ ok result'
      → result.commitment ≡ result'.commitment
      → CommitmentCollision blake2s primitives state state' claim claim'
        ⊎ SameCommitted blake2s primitives state state' claim claim'
  unfolding result_of hashes_of pass_hash meta_hash aux_hash commitment_of
  verify_commitment-binds state state' claim claim' result result' range range' post post' e e' eq =
      let (settled, same) =
        verify_commitment-Settles blake2s primitives hashes state claim result e in
      let (settled', same') =
        verify_commitment-Settles blake2s primitives hashes state' claim' result' e' in
      let len : length claim.blob_hashes ≡ length claim'.blob_hashes =
        settled.blob_count ∙ sym settled'.blob_count in
      let commitments =
        sym (result_commitment blake2s primitives hashes state claim)
        ∙ (ap (λ r. r.commitment) same
            ∙ (eq
                ∙ (sym (ap (λ r. r.commitment) same')
                    ∙ result_commitment blake2s primitives hashes state' claim'))) in
      unless_collision commitments_collide
        (compute_commitment-injective primitives hashes _ _ _ _ _ _ (hashes _) (hashes _) (hashes _)
          (hashes _) (hashes _) (hashes _) commitments)
        λ parts.
          let (pass, (meta, aux)) = parts in
          unless_collision pass_through_collides
            (pass_hash-injective primitives hashes _ _ _ _ range.state_InRange.new_index_IsU64
              range'.state_InRange.new_index_IsU64 range.state_InRange.new_root_IsWord
              range'.state_InRange.new_root_IsWord pass)
            λ passed.
              unless_collision (λ c. c)
                (meta_hash-injective state state' claim claim' range range' post post' meta)
                λ codes.
                  unless_collision (λ c. c)
                    (aux_hash-injective state state' claim claim' range range' len aux)
                    λ sent.
                      let (index, root) = passed in
                      let (boot, (account, emulator)) = codes in
                      let (logs, (diffs, (heap, blobs))) = sent in
                      inr (record {
                        same_root = root;
                        same_index = index;
                        same_bootloader = boot;
                        same_default_aa = account;
                        same_emulator = emulator;
                        same_system_logs = logs;
                        same_state_diffs = diffs;
                        same_heap = heap;
                        same_blobs = blobs;
                      })
