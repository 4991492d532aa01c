-- ===== src/Tests/Settled.antt =====
-- The accepted batch through `verify_commitment` and `verify`, with no blob.
use eravm_airbender_verifier.Common.{
  ℕ, zero, suc, inl, ◌+◌, ◌%◌, ◌*◌, ◌≡◌, ◌⊎◌, refl, some, [], ok, arith, length, replicate,
  NeverPanics,
}
use eravm_airbender_verifier.Bytes.{be_bytes, be_value, le_value}
use eravm_airbender_verifier.Bytes.Values.{length-be_bytes}
use eravm_airbender_verifier.Tree.Blake2.{hash_bytes}
use eravm_airbender_verifier.Tree.Roots.{IsWord, IsU64}
use eravm_airbender_verifier.Commitment.Defs.{Primitives, BlobHash, compute_commitment}
use eravm_airbender_verifier.Commitment.Blobs.{BlobsHold}
use eravm_airbender_verifier.Commitment.Keccak.{ReturnsHashes}
use eravm_airbender_verifier.Batch.Version.{is_post_1_5_0}
use eravm_airbender_verifier.Batch.Env.{
  CommitmentInput, AirbenderVerifierInput, total_blobs_in_commitment,
}
use eravm_airbender_verifier.Batch.Verify.{
  heap_hash_of, VerificationResult, verify_commitment, verify, result_of,
}
use eravm_airbender_verifier.Batch.Settlement.{pass_hash, hashes_of, Settles, verify_commitment_lem}
use eravm_airbender_verifier.Batch.Preimages.{BlobsInRange}
use eravm_airbender_verifier.Batch.Committed.{
  CommittedInRange, CommitmentCollision, SameCommitted, verify_commitment-binds,
}
use eravm_airbender_verifier.Batch.Binding.{FollowCollision}
use eravm_airbender_verifier.Batch.Sound.{batches_continue}
use eravm_airbender_verifier.Tests.Toy.{toy}
use eravm_airbender_verifier.Tests.Machine.{counter}
use eravm_airbender_verifier.Tests.Execution.{no_digest, input, state, accepted, length-heap}

-- Lengths for hashes, cut to two bytes.
abbrev primitives : Primitives
primitives = record {
  keccak256 = λ bytes. length bytes % 65536;
  Fr = ℕ;
  fr_zero = 0;
  fr_add = λ a b. a + b;
  fr_mul = λ a b. a * b;
  from_be_bytes_mod_order = be_value;
  from_le_bytes_mod_order = le_value;
  to_bytes_be = be_bytes 32;
  length-to_bytes_be = length-be_bytes 32;
}

primitives-ReturnsHashes : ReturnsHashes primitives
primitives-ReturnsHashes bytes = omega arith

abbrev no_blob : BlobHash
no_blob = record { commitment = 0; linear_hash = 0 }

abbrev claim : CommitmentInput
claim = record {
  prev_batch_commitment = 96;
  prev_meta_hash = 1;
  prev_aux_hash = 2;
  blob_hashes = replicate 16 no_blob;
  blob_versioned_hashes = replicate 16 0;
}

no_blobs : (slots i : ℕ) → BlobsHold primitives [] i (replicate slots 0) (replicate slots no_blob)
no_blobs zero i = tt
no_blobs (suc slots) i = (inl (refl, refl), no_blobs slots (suc i))

settles : Settles toy primitives state claim
unfolding compute_commitment pass_hash be_bytes total_blobs_in_commitment
settles = record {
  no_zk_porter = refl;
  prev_commitment = refl;
  pubdata = [];
  pubdata_there = refl;
  blobs = no_blobs 16 0;
  blob_count = refl;
}

abbrev result : VerificationResult
result = result_of toy primitives state claim (hashes_of toy primitives state claim)

settled : verify_commitment toy primitives state claim ≡ ok result
settled = (verify_commitment_lem toy primitives state claim result).1.1 settles

verify_commitment_lem_example :
    NeverPanics (verify_commitment toy primitives state claim)
    × ((verify_commitment toy primitives state claim ≡ ok result
          → Settles toy primitives state claim × (result ≡ result))
        × (Settles toy primitives state claim
            → verify_commitment toy primitives state claim ≡ ok result))
verify_commitment_lem_example = verify_commitment_lem toy primitives state claim result

committed : CommittedInRange toy primitives state claim
unfolding heap_hash_of hash_bytes
committed = record {
  state_InRange = record {
    old_root_IsWord = omega arith;
    prev_index_IsU64 = omega arith;
    new_root_IsWord = omega arith;
    new_index_IsU64 = omega arith;
  };
  bootloader_IsWord = omega arith;
  default_aa_IsWord = omega arith;
  emulator_IsWord = omega arith;
  heap_hash_IsWord = omega (arith, length-heap);
  blobs_InRange = no_blobs-InRange 16;
}
  where
    no_blobs-InRange : (slots : ℕ) → BlobsInRange (replicate slots no_blob)
    no_blobs-InRange zero = tt
    no_blobs-InRange (suc slots) = (omega arith, (omega arith, no_blobs-InRange slots))

verify_commitment-binds_example :
    CommitmentCollision toy primitives state state claim claim
    ⊎ SameCommitted toy primitives state state claim claim
unfolding is_post_1_5_0
verify_commitment-binds_example =
    verify_commitment-binds toy primitives primitives-ReturnsHashes state state claim claim result
      result committed committed refl refl settled settled refl

-- The input with its claim.
abbrev claimed : AirbenderVerifierInput ℕ
claimed = record input { commitment_input = some claim }

verified : verify toy primitives no_digest counter claimed ≡ ok result
unfolding verify
verified = rw (accepted, settled) refl

follows : claim.prev_batch_commitment ≡ result.commitment
unfolding result_of hashes_of be_bytes
follows = refl

root_IsWord : IsWord result.value_hash
unfolding result_of
root_IsWord = omega arith

index_IsU64 : IsU64 result.new_enumeration_index
unfolding result_of
index_IsU64 = omega arith

batches_continue_example :
    FollowCollision primitives 64 1 claim result
    ⊎ ((64 ≡ result.value_hash) × (1 ≡ result.new_enumeration_index))
batches_continue_example =
    batches_continue toy primitives no_digest counter claimed claimed result result claim 64
      primitives-ReturnsHashes root_IsWord index_IsU64 refl (omega arith) (omega arith) refl
      (omega arith) (omega arith) verified verified follows
