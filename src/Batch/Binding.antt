-- ===== src/Batch/Binding.antt =====
-- crates/airbender_verifier/src/lib.rs: what the commitment of a verified batch binds, and how the
-- batches of a chain follow each other.
use mathlib.Core.Path.{subst}
use eravm_airbender_verifier.Common.{ℕ, ◌≡◌, ◌⊎◌, inl, inr, refl, sym, ap, ◌∙◌, ok}
use eravm_airbender_verifier.Tree.Types.{H256}
use eravm_airbender_verifier.Tree.Blake2.{Blake2s}
use eravm_airbender_verifier.Tree.Roots.{IsWord, IsU64}
use eravm_airbender_verifier.Commitment.Defs.{Primitives, compute_commitment}
use eravm_airbender_verifier.Commitment.Keccak.{
  Collides, commitment_preimage, ReturnsHashes, unless_collision, keccak_injective, field_injective,
  bytes_injective,
}
use eravm_airbender_verifier.Batch.Hashing.{meta_hash, aux_hash, root_state_bytes, two_states}
use eravm_airbender_verifier.Batch.Env.{CommitmentInput}
use eravm_airbender_verifier.Batch.Execute.{VmExecutionState}
use eravm_airbender_verifier.Batch.Verify.{VerificationResult, verify_commitment, result_of}
use eravm_airbender_verifier.Batch.Settlement.{pass_hash, hashes_of, Settles, verify_commitment_lem}

-- The machine ranges of the roots and indices of a state.
pub record StateInRange (state : VmExecutionState) : Type 0 where
  pub old_root_IsWord : IsWord state.old_root_hash
  pub prev_index_IsU64 : IsU64 state.prev_enumeration_index
  pub new_root_IsWord : IsWord state.new_root_hash
  pub new_index_IsU64 : IsU64 state.new_enumeration_index

abbrev second_of {ℓ} : {A : Type 0} {B : Type ℓ} → A × B → B
second_of (a, b) = b

module _ (primitives : Primitives) (hashes : ReturnsHashes primitives) where
  -- A commitment tells its three parts apart.
  pub compute_commitment-injective :
      (a b c a' b' c' : H256)
      → IsWord a
      → IsWord a'
      → IsWord b
      → IsWord b'
      → IsWord c
      → IsWord c'
      → compute_commitment primitives a b c ≡ compute_commitment primitives a' b' c'
      → Collides primitives (commitment_preimage a b c) (commitment_preimage a' b' c')
        ⊎ ((a ≡ a') × ((b ≡ b') × (c ≡ c')))
  unfolding compute_commitment
  compute_commitment-injective a b c a' b' c' wa wa' wb wb' wc wc' e =
      elim (keccak_injective primitives _ _ e) [
        | inl collision ↦ inl collision
        | inr same ↦
            let (first, rest) = field_injective 32 a a' wa wa' same in
            let (second, rest') = field_injective 32 b b' wb wb' rest in
            inr (first, (second, bytes_injective 32 c c' wc wc' rest'))
      ]

  -- The hash of the pass-through data tells indices and roots apart.
  pub pass_hash-injective :
      (index index' : ℕ) (root root' : H256)
      → IsU64 index
      → IsU64 index'
      → IsWord root
      → IsWord root'
      → pass_hash primitives index root ≡ pass_hash primitives index' root'
      → Collides primitives
          (root_state_bytes (two_states index root))
          (root_state_bytes (two_states index' root'))
        ⊎ ((index ≡ index') × (root ≡ root'))
  unfolding pass_hash
  pass_hash-injective index index' root root' wi wi' wr wr' e =
      elim (keccak_injective primitives _ _ e) [
        | inl collision ↦ inl collision
        | inr same ↦
            let (first, rest) = field_injective 8 index index' wi wi' same in
            let (second, _) = field_injective 32 root root' wr wr' rest in inr (first, second)
      ]

-- The claimed previous commitment of a batch, opened to the root and index that the batch starts from,
-- against the commitment of the batch before, opened to its results: one of the two hashes on the way
-- to the root has two different inputs.
pub data FollowCollision (primitives : Primitives) (old_root : H256) (index : ℕ)
    (claim : CommitmentInput) (result : VerificationResult) : Type 0 where
  commitments_collide :
      Collides primitives
        (commitment_preimage
          (pass_hash primitives index old_root)
          claim.prev_meta_hash
          claim.prev_aux_hash)
        (commitment_preimage
          (pass_hash primitives result.new_enumeration_index result.value_hash)
          result.metadata_hash
          result.auxiliary_output_hash)
      → FollowCollision primitives old_root index claim result
  pass_through_collides :
      Collides primitives
        (root_state_bytes (two_states index old_root))
        (root_state_bytes (two_states result.new_enumeration_index result.value_hash))
      → FollowCollision primitives old_root index claim result

module _ (blake2s : Blake2s) (primitives : Primitives) (hashes : ReturnsHashes primitives) where
  -- The result's fields of an accepted batch.
  abbrev pub accepted_result : VmExecutionState → CommitmentInput → VerificationResult
  accepted_result state commitment_input =
      result_of blake2s primitives state commitment_input
        (hashes_of blake2s primitives state commitment_input)

  pub verify_commitment-Settles :
      (state : VmExecutionState) (commitment_input : CommitmentInput) (result : VerificationResult)
      → verify_commitment blake2s primitives state commitment_input ≡ ok result
      → Settles blake2s primitives state commitment_input
        × (accepted_result state commitment_input ≡ result)
  verify_commitment-Settles state commitment_input result e =
      (verify_commitment_lem blake2s primitives state commitment_input result).1.0 e

  -- The commitment of a result is that of its three hashes, the first being of its root and index.
  pub result_commitment :
      (state : VmExecutionState) (commitment_input : CommitmentInput)
      → (accepted_result state commitment_input).commitment
        ≡ compute_commitment primitives
            (pass_hash primitives state.new_enumeration_index state.new_root_hash)
            (accepted_result state commitment_input).metadata_hash
            (accepted_result state commitment_input).auxiliary_output_hash
  unfolding result_of hashes_of compute_commitment
  result_commitment state commitment_input = refl

  -- The state that a later batch starts from is the one that the earlier batch ended with.
  pub states_continue :
      (before after : VmExecutionState) (claim claim' : CommitmentInput)
      (result result' : VerificationResult)
      → IsWord result.value_hash
      → IsU64 result.new_enumeration_index
      → IsWord after.old_root_hash
      → IsU64 after.prev_enumeration_index
      → IsWord claim'.prev_meta_hash
      → IsWord claim'.prev_aux_hash
      → verify_commitment blake2s primitives before claim ≡ ok result
      → verify_commitment blake2s primitives after claim' ≡ ok result'
      → claim'.prev_batch_commitment ≡ result.commitment
      → FollowCollision primitives after.old_root_hash after.prev_enumeration_index claim' result
        ⊎ ((after.old_root_hash ≡ result.value_hash)
            × (after.prev_enumeration_index ≡ result.new_enumeration_index))
  unfolding result_of hashes_of pass_hash meta_hash aux_hash
  states_continue before after claim claim' result result' new_word new_u64 old_word old_u64 wm wa e
        e' follows =
      let (settled, same) = verify_commitment-Settles before claim result e in
      let (settled', _) = verify_commitment-Settles after claim' result' e' in
      let opened =
        result_commitment before claim
        ∙ ap
            (λ r.
              compute_commitment primitives
                (pass_hash primitives r.new_enumeration_index r.value_hash) r.metadata_hash
                r.auxiliary_output_hash)
            same in
      let meta_word = subst (λ r. IsWord r.metadata_hash) same (hashes _) in
      let aux_word = subst (λ r. IsWord r.auxiliary_output_hash) same (hashes _) in
      unless_collision commitments_collide
        (compute_commitment-injective primitives hashes
          (pass_hash primitives after.prev_enumeration_index after.old_root_hash)
          claim'.prev_meta_hash claim'.prev_aux_hash
          (pass_hash primitives result.new_enumeration_index result.value_hash) result.metadata_hash
          result.auxiliary_output_hash (hashes _) (hashes _) wm meta_word wa aux_word
          (settled'.prev_commitment ∙ (follows ∙ (sym (ap (λ r. r.commitment) same) ∙ opened))))
        λ parts.
          let (pass, _) = parts in
          unless_collision pass_through_collides
            (pass_hash-injective primitives hashes after.prev_enumeration_index
              result.new_enumeration_index after.old_root_hash result.value_hash old_u64 new_u64
              old_word new_word pass)
            λ passed. let (index, root) = passed in inr (root, index)
