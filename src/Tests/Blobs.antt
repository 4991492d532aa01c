-- ===== src/Tests/Blobs.antt =====
-- The blob check at a concrete pubdata: one claimed blob and one empty slot.
use eravm_airbender_verifier.Common.{ℕ, ◌+◌, ◌*◌, ◌≡◌, refl, List, [], ◌∷◌, length, ok}
use eravm_airbender_verifier.Bytes.{be_bytes, le_value, be_value}
use eravm_airbender_verifier.Bytes.Values.{length-be_bytes}
use eravm_airbender_verifier.Tree.Types.{H256}
use eravm_airbender_verifier.Commitment.Defs.{
  Primitives, BlobHash, verify_blob_hashes, bytes32_to_u32x8,
}
use eravm_airbender_verifier.Commitment.Blobs.{BlobsHold, verify_blob_hashes_lem}

-- Numbers for field elements, and lengths for hashes.
abbrev primitives : Primitives
primitives = record {
  keccak256 = length;
  Fr = ℕ;
  fr_zero = 0;
  fr_add = λ a b. a + b;
  fr_mul = λ a b. a * b;
  from_be_bytes_mod_order = be_value;
  from_le_bytes_mod_order = le_value;
  to_bytes_be = be_bytes 32;
  length-to_bytes_be = length-be_bytes 32;
}

abbrev versioned : List H256
versioned = 7 ∷ 0 ∷ []

abbrev claimed : List BlobHash
claimed =
    record { commitment = 80; linear_hash = 126976 }
    ∷ record { commitment = 0; linear_hash = 0 }
    ∷ []

-- Words are read least significant byte first.
words : bytes32_to_u32x8 2 (1 ∷ 0 ∷ 0 ∷ 0 ∷ 0 ∷ 1 ∷ 0 ∷ 0 ∷ []) ≡ 1 ∷ 256 ∷ []
unfolding bytes32_to_u32x8 le_value
words = refl

verify_blob_hashes_lem_example :
    (verify_blob_hashes primitives (1 ∷ 2 ∷ []) versioned claimed ≡ ok tt
      → BlobsHold primitives (1 ∷ 2 ∷ []) 0 versioned claimed)
    × (BlobsHold primitives (1 ∷ 2 ∷ []) 0 versioned claimed
        → verify_blob_hashes primitives (1 ∷ 2 ∷ []) versioned claimed ≡ ok tt)
verify_blob_hashes_lem_example = verify_blob_hashes_lem primitives (1 ∷ 2 ∷ []) versioned claimed
