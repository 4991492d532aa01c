-- ===== src/Batch/Sound.antt =====
-- crates/airbender_verifier/src/lib.rs: what a verified batch proves, from the old root to the public
-- input, and of the batch after it.
use mathlib.Core.Path.{ap₂, subst}
use eravm_airbender_verifier.Common.{
  ℕ, ◌≡◌, ◌⊎◌, sym, ap, ◌∙◌, Option, none, some, List, ok, >>=-eq-ok, commitment_input_missing,
}
use eravm_airbender_verifier.Tree.Types.{H256}
use eravm_airbender_verifier.Tree.Blake2.{Blake2s, blake2_hasher}
use eravm_airbender_verifier.Tree.Trim.{FoldsDigest}
use eravm_airbender_verifier.Tree.Roots.{Leaves, ReturnsWords, tree_root, IsWord, IsU64}
use eravm_airbender_verifier.Verifier.Streaming.{verify_paths_and_new_root}
use eravm_airbender_verifier.Verifier.Replay.{MetasInRange, LogsInRange, TreeInRange}
use eravm_airbender_verifier.Verifier.Ranges.{normalize-InRange, normalize-index}
use eravm_airbender_verifier.Verifier.Soundness.{IsReplayed, BatchCollision}
use eravm_airbender_verifier.Verifier.Sound.{verify_paths_sound}
use eravm_airbender_verifier.Commitment.Defs.{Primitives}
use eravm_airbender_verifier.Commitment.Keccak.{ReturnsHashes}
use eravm_airbender_verifier.Batch.Version.{ProtocolVersionId}
use eravm_airbender_verifier.Batch.Env.{PubdataParams, CommitmentInput, AirbenderVerifierInput}
use eravm_airbender_verifier.Batch.Machine.{VmInterface, FinishedL1Batch}
use eravm_airbender_verifier.Batch.Execute.{VmExecutionState, context, run_batch, execute}
use eravm_airbender_verifier.Batch.Pins.{context-some}
use eravm_airbender_verifier.Batch.Executed.{Executed, execute-Executed}
use eravm_airbender_verifier.Batch.Transactions.{RollsBack, Runs, runs}
use eravm_airbender_verifier.Batch.Refinement.{execute_vm-Runs}
use eravm_airbender_verifier.Batch.Verify.{VerificationResult, verify_commitment, verify}
use eravm_airbender_verifier.Batch.Binding.{FollowCollision, states_continue}

-- The logs of every batch that the VM finishes are in the range of their machine types.
abbrev pub FinishesInRange : VmInterface → Type 0
FinishesInRange vm =
    (state : vm.State) (params : PubdataParams) (version : ProtocolVersionId)
    (finished : FinishedL1Batch)
    → vm.finish_batch state params version ≡ ok finished
    → LogsInRange finished.final_execution_state.deduplicated_storage_logs

value_or {ℓ} : {A : Type ℓ} → A → Option A → A
value_or d none = d
value_or d (some b) = b

some-injective {ℓ} : {A : Type ℓ} {a b : A} → some a ≡ some b → a ≡ b
unfolding value_or
some-injective {a = a} e = ap (value_or a) e

module _ (blake2s : Blake2s) (sha256 : List ℕ → H256) (vm : VmInterface) where
  -- A batch, run from a tree: the VM over the storage of the witness, with the code of its hashes,
  -- and its logs, which lead from the tree to the new root and index, unless an entry's path collides
  -- with the tree.
  pub record ProvesBatch (input : AirbenderVerifierInput vm.Transaction) (leaves : Leaves)
      (state : VmExecutionState) : Type 0 where
    pub executed : Executed blake2s sha256 vm input state
    pub runs_vm :
        Runs vm input.l2_blocks_execution_data
          (vm.new_vm input.l1_batch_env input.system_env
            (record { storage = executed.storage; factory_deps = executed.factory_deps }))
          input.pubdata_params
          input.system_env.version
          executed.vm_out
    pub replayed :
        BatchCollision blake2s
          (leaves, input.merkle_paths.next_enumeration_index)
          executed.merkle_paths.merkle_paths
          executed.vm_out.final_execution_state.deduplicated_storage_logs
        ⊎ IsReplayed blake2s
            (leaves, input.merkle_paths.next_enumeration_index)
            executed.merkle_paths.merkle_paths
            executed.vm_out.final_execution_state.deduplicated_storage_logs
            (state.new_root_hash, state.new_enumeration_index)

  Runs-InRange :
      (input : AirbenderVerifierInput vm.Transaction) (start : vm.State) (vm_out : FinishedL1Batch)
      → FinishesInRange vm
      → Runs vm input.l2_blocks_execution_data start input.pubdata_params input.system_env.version
          vm_out
      → LogsInRange vm_out.final_execution_state.deduplicated_storage_logs
  Runs-InRange input start vm_out ranges (runs empty last blocks finish tip) =
      ranges last _ _ vm_out finish

  -- Where `execute` succeeds on a batch whose previous root is the root of a tree, it has passed the
  -- checks of `Executed`, the VM has run every transaction of every block but the last over the storage
  -- of the witness, none of them halting, and the tree that the VM's logs leave when they are replayed
  -- has the new root and the new index, with every read and every witness entry agreeing with the tree
  -- at its point. The replay, and only it, may fail where the fold of some witness entry's path hashes
  -- another input than the tree has at a node on its way, to the same hash. The VM's rollbacks restore,
  -- the hasher returns words and folds its digest, and the witness, the logs and the tree are in their
  -- ranges.
  pub execute_sound :
      (input : AirbenderVerifierInput vm.Transaction) (leaves : Leaves) (state : VmExecutionState)
      → RollsBack vm
      → FinishesInRange vm
      → FoldsDigest blake2s
      → ReturnsWords (blake2_hasher blake2s)
      → MetasInRange input.merkle_paths.merkle_paths
      → TreeInRange (leaves, input.merkle_paths.next_enumeration_index)
      → input.l1_batch_env.previous_batch_hash ≡ some (tree_root (blake2_hasher blake2s) leaves)
      → execute blake2s sha256 vm input ≡ ok state
      → ProvesBatch input leaves state
  unfolding run_batch
  execute_sound input leaves state rolls ranges folds words metas tree previous e =
      let x = execute-Executed blake2s sha256 vm input state e in
      let (metas', index) =
        normalize-InRange (blake2_hasher blake2s) input.merkle_paths (x.merkle_paths, x.counts)
          metas x.normalized in
      let old = some-injective (sym x.pinned.old_root ∙ previous) in
      let ran = (execute_vm-Runs vm rolls _ _ _ _ x.vm_out).0 x.ran in
      let logs = Runs-InRange input _ x.vm_out ranges ran in
      record {
        executed = x;
        runs_vm = ran;
        replayed =
            verify_paths_sound blake2s x.merkle_paths
              x.vm_out.final_execution_state.deduplicated_storage_logs leaves
              input.merkle_paths.next_enumeration_index
              (state.new_root_hash, state.new_enumeration_index) folds words metas' logs tree
              (ap₂
                  (verify_paths_and_new_root blake2s x.merkle_paths
                    x.vm_out.final_execution_state.deduplicated_storage_logs)
                  (sym old) (sym index)
                ∙ x.finished.merkle);
      }

module _ (blake2s : Blake2s) (primitives : Primitives) (sha256 : List ℕ → H256)
    (vm : VmInterface) where
  -- The input without the commitment input that `verify` took out.
  abbrev pub taken : AirbenderVerifierInput vm.Transaction → AirbenderVerifierInput vm.Transaction
  taken input = record input { commitment_input = none }

  -- A verified batch: its commitment input, and its state.
  pub record Verified (input : AirbenderVerifierInput vm.Transaction) (result : VerificationResult)
      : Type 0 where
    pub claim : CommitmentInput
    pub claim_there : input.commitment_input ≡ some claim
    pub state : VmExecutionState
    pub executed : execute blake2s sha256 vm (taken input) ≡ ok state
    pub settled : verify_commitment blake2s primitives state claim ≡ ok result

  pub verify-Verified :
      (input : AirbenderVerifierInput vm.Transaction) (result : VerificationResult)
      → verify blake2s primitives sha256 vm input ≡ ok result
      → Verified input result
  unfolding verify
  verify-Verified input result e =
      let (claim, there, e₁) =
        >>=-eq-ok (context input.commitment_input commitment_input_missing) _ e in
      let (state, executed, e₂) = >>=-eq-ok (execute blake2s sha256 vm (taken input)) _ e₁ in
      record {
        claim = claim;
        claim_there = context-some input.commitment_input _ there;
        state = state;
        executed = executed;
        settled = e₂;
      }

  -- Two verified batches, the commitment of the first being the previous commitment that the second
  -- claims: the second starts from the root and the index that the first ended with, or Keccak gives one
  -- hash to the two commitments' inputs, or to the two pairs of index and root, and they differ. Keccak returns words, and the roots, the indices and the claimed hashes are in their
  -- ranges.
  pub batches_continue :
      (input input' : AirbenderVerifierInput vm.Transaction) (result result' : VerificationResult)
      (claim' : CommitmentInput) (old_root : H256)
      → ReturnsHashes primitives
      → IsWord result.value_hash
      → IsU64 result.new_enumeration_index
      → input'.commitment_input ≡ some claim'
      → IsWord claim'.prev_meta_hash
      → IsWord claim'.prev_aux_hash
      → input'.l1_batch_env.previous_batch_hash ≡ some old_root
      → IsWord old_root
      → IsU64 input'.merkle_paths.next_enumeration_index
      → verify blake2s primitives sha256 vm input ≡ ok result
      → verify blake2s primitives sha256 vm input' ≡ ok result'
      → claim'.prev_batch_commitment ≡ result.commitment
      → FollowCollision primitives old_root input'.merkle_paths.next_enumeration_index claim' result
        ⊎ ((old_root ≡ result.value_hash)
            × (input'.merkle_paths.next_enumeration_index ≡ result.new_enumeration_index))
  batches_continue input input' result result' claim' old_root hashes new_word new_u64 claimed wm wa
        previous old_word old_u64 e e' follows =
      let before = verify-Verified input result e in
      let after = verify-Verified input' result' e' in
      let x = execute-Executed blake2s sha256 vm (taken input') after.state after.executed in
      let same_claim = some-injective (sym after.claim_there ∙ claimed) in
      let same_root = some-injective (sym x.pinned.old_root ∙ previous) in
      let same_index =
        x.finished.prev_index
        ∙ normalize-index (blake2_hasher blake2s) input'.merkle_paths (x.merkle_paths, x.counts)
            x.normalized in
      subst
        (λ root.
          FollowCollision primitives root input'.merkle_paths.next_enumeration_index claim' result
          ⊎ ((root ≡ result.value_hash)
              × (input'.merkle_paths.next_enumeration_index ≡ result.new_enumeration_index)))
        same_root
        (subst
          (λ index.
            FollowCollision primitives after.state.old_root_hash index claim' result
            ⊎ ((after.state.old_root_hash ≡ result.value_hash)
                × (index ≡ result.new_enumeration_index)))
          same_index
          (states_continue blake2s primitives hashes before.state after.state before.claim claim'
            result result' new_word new_u64 (rw same_root old_word) (rw same_index old_u64) wm wa
            before.settled
            (ap (verify_commitment blake2s primitives after.state) (sym same_claim) ∙ after.settled)
            follows))
