-- ===== src/Commitment/Defs.antt =====
-- crates/airbender_verifier/src/commitment.rs. Keccak and the BLS12-381 scalar field are arguments.
use eravm_airbender_verifier.Common.{
  ℕ, zero, suc, ◌+◌, ◌-◌, ◌*◌, ◌/◌, Option, none, some, List, [], ◌∷◌, ◌++◌, length, take, drop,
  replicate, min, ltb, leb, ◌==◌, if◌then◌else◌, Outcome, ok, ensure, assert, ◌>>◌,
  blob_count_mismatch, commitment_of_no_blob, no_pubdata_for_blob, linear_hash_mismatch,
  opening_commitment_mismatch, heap_entry_exceeds_memory, slice_start_after_end,
  opening_value_not_32_bytes, ◌%◌, ◌^◌, ◌≡◌, ◌>>=◌,
}
use eravm_airbender_verifier.Bytes.{be_bytes, le_value}
use eravm_airbender_verifier.Tree.Types.{H256}

-- `BLOB_CHUNK_SIZE * ELEMENTS_PER_4844_BLOCK`
unfoldable pub zk_sync_bytes_per_blob : ℕ
zk_sync_bytes_per_blob = 31 * 4096

-- The EVM keccak, and the field's arithmetic and conversions, as the code uses them.
pub record Primitives : Type 1 where
  pub keccak256 : List ℕ → H256
  pub Fr : Type 0
  pub fr_zero : Fr
  pub fr_add : Fr → Fr → Fr
  pub fr_mul : Fr → Fr → Fr
  pub from_be_bytes_mod_order : List ℕ → Fr
  pub from_le_bytes_mod_order : List ℕ → Fr
  -- `into_bigint().to_bytes_be()`, of four 64-bit limbs.
  pub to_bytes_be : Fr → List ℕ
  pub length-to_bytes_be : (value : Fr) → length (to_bytes_be value) ≡ 32

pub record BlobHash : Type 0 where
  pub commitment : H256
  pub linear_hash : H256

-- `pubdata[start..end]`
abbrev pub blob_slice : List ℕ → ℕ → List ℕ
blob_slice pubdata i =
    let start = i * zk_sync_bytes_per_blob in
    let end = min ((i + 1) * zk_sync_bytes_per_blob) (length pubdata) in
    take (end - start) (drop start pubdata)

unfoldable pub padded_blob_for : List ℕ → ℕ → Option (List ℕ)
padded_blob_for pubdata i =
    let start = i * zk_sync_bytes_per_blob in
    let end = min ((i + 1) * zk_sync_bytes_per_blob) (length pubdata) in
    if leb (length pubdata) start
    then none
    else some (blob_slice pubdata i ++ replicate (zk_sync_bytes_per_blob - (end - start)) 0)

-- The slot's bytes: a full one straight from the pubdata, a partial one padded.
unfoldable pub blob_bytes : List ℕ → ℕ → List ℕ
blob_bytes pubdata i =
    let start = i * zk_sync_bytes_per_blob in
    let end = min ((i + 1) * zk_sync_bytes_per_blob) (length pubdata) in
    if (end - start) == zk_sync_bytes_per_blob
    then blob_slice pubdata i
    else blob_slice pubdata i ++ replicate (zk_sync_bytes_per_blob - (end - start)) 0

-- `pubdata.len().div_ceil(ZK_SYNC_BYTES_PER_BLOB)`
unfoldable pub num_blobs_from_pubdata : List ℕ → ℕ
unfolding zk_sync_bytes_per_blob
num_blobs_from_pubdata pubdata =
    (length pubdata + (zk_sync_bytes_per_blob - 1)) / zk_sync_bytes_per_blob

-- `chunks(BLOB_CHUNK_SIZE)`, on fuel: as many chunks as the blob has field elements.
unfoldable pub chunks : ℕ → List ℕ → List (List ℕ)
chunks zero bytes = []
chunks (suc count) [] = []
chunks (suc count) (b ∷ bytes) = take 31 (b ∷ bytes) ∷ chunks count (drop 31 (b ∷ bytes))

unfoldable pub bytes32_to_u32x8 : ℕ → List ℕ → List ℕ
bytes32_to_u32x8 zero hash = []
bytes32_to_u32x8 (suc words) hash = le_value (take 4 hash) ∷ bytes32_to_u32x8 words (drop 4 hash)

module _ (primitives : Primitives) where
  unfoldable pub compute_commitment : H256 → H256 → H256 → H256
  compute_commitment pass_through_data_hash metadata_hash auxiliary_output_hash =
      primitives.keccak256 (
        be_bytes 32 pass_through_data_hash
        ++ (be_bytes 32 metadata_hash ++ be_bytes 32 auxiliary_output_hash))

  unfoldable pub compute_proof_public_input : H256 → H256 → List ℕ
  unfolding bytes32_to_u32x8
  compute_proof_public_input prev_batch_commitment current_commitment = bytes32_to_u32x8 8 (
      be_bytes 32 (
        primitives.keccak256 (be_bytes 32 prev_batch_commitment ++ be_bytes 32 current_commitment)))

  -- Horner's rule, the first chunk being the highest coefficient.
  unfoldable pub horner : primitives.Fr → primitives.Fr → List (List ℕ) → primitives.Fr
  horner point value [] = value
  horner point value (chunk ∷ rest) =
      let coeff = primitives.from_le_bytes_mod_order (chunk ++ 0 ∷ []) in
      horner point (primitives.fr_add (primitives.fr_mul value point) coeff) rest

  unfoldable pub compute_blob_opening_commitment : List ℕ → H256 → H256 → Outcome H256
  unfolding chunks horner
  compute_blob_opening_commitment bytes versioned_hash linear_hash =
      let eval_hash =
        be_bytes 32
          (primitives.keccak256 (be_bytes 32 linear_hash ++ be_bytes 32 versioned_hash)) in
      let evaluation_point =
        primitives.from_be_bytes_mod_order (replicate 16 0 ++ drop 16 eval_hash) in
      let opening_value = horner evaluation_point primitives.fr_zero (chunks 4096 bytes) in
      let opening_value_bytes = primitives.to_bytes_be opening_value in
      assert (length opening_value_bytes == 32) opening_value_not_32_bytes
      >> ok (
          primitives.keccak256
            (be_bytes 32 versioned_hash ++ (drop 16 eval_hash ++ opening_value_bytes)))

  linear_hash_or_zero : Option (List ℕ) → H256
  linear_hash_or_zero none = 0
  linear_hash_or_zero (some blob) = primitives.keccak256 blob

  -- The slots from `i` on.
  unfoldable pub linear_hashes_from : List ℕ → ℕ → ℕ → List H256
  unfolding padded_blob_for linear_hash_or_zero
  linear_hashes_from pubdata i zero = []
  linear_hashes_from pubdata i (suc slots) =
      linear_hash_or_zero (padded_blob_for pubdata i) ∷ linear_hashes_from pubdata (suc i) slots

  -- With `TOTAL_BLOBS_IN_COMMITMENT` slots.
  unfoldable pub compute_blob_linear_hashes : ℕ → List ℕ → List H256
  unfolding linear_hashes_from
  compute_blob_linear_hashes total pubdata = linear_hashes_from pubdata 0 total

  -- One round of the loop over the claimed blob hashes.
  unfoldable pub check_blob : List ℕ → ℕ → H256 → BlobHash → Outcome (Unit {0})
  unfolding num_blobs_from_pubdata blob_bytes
  check_blob pubdata i versioned_hash blob_hash =
      if blob_hash.linear_hash == 0
      then ensure (blob_hash.commitment == 0) commitment_of_no_blob
      else (do
        ensure (ltb i (num_blobs_from_pubdata pubdata)) no_pubdata_for_blob
        let bytes = blob_bytes pubdata i
        ensure (blob_hash.linear_hash == primitives.keccak256 bytes) linear_hash_mismatch
        computed_commitment ←
            compute_blob_opening_commitment bytes versioned_hash blob_hash.linear_hash
        ensure (blob_hash.commitment == computed_commitment) opening_commitment_mismatch)

  unfoldable pub check_blobs_from : List ℕ → ℕ → List H256 → List BlobHash → Outcome (Unit {0})
  unfolding check_blob
  check_blobs_from pubdata i (versioned_hash ∷ versioned) (blob_hash ∷ blob_hashes) =
      check_blob pubdata i versioned_hash blob_hash
      >> check_blobs_from pubdata (suc i) versioned blob_hashes
  check_blobs_from pubdata i _ _ = ok tt

  unfoldable pub verify_blob_hashes : List ℕ → List H256 → List BlobHash → Outcome (Unit {0})
  unfolding check_blobs_from
  verify_blob_hashes pubdata versioned_hashes blob_hashes = do
    ensure (length versioned_hashes == length blob_hashes) blob_count_mismatch
    check_blobs_from pubdata 0 versioned_hashes blob_hashes

-- `value.to_big_endian(&mut result[start..end])`
unfoldable pub write_word : List ℕ → ℕ → ℕ → List ℕ
write_word heap start value = take start heap ++ (be_bytes 32 value ++ drop (start + 32) heap)

-- `usize` of 64 bits, which wraps in the release profile; a slice whose start is past its end panics.
unfoldable pub write_words : ℕ → List ℕ → List (ℕ × ℕ) → Outcome (List ℕ)
unfolding write_word
write_words memory_size_bytes heap [] = ok heap
write_words memory_size_bytes heap ((offset, value) ∷ rest) = do
  let start = (offset * 32) % 2 ^ 64
  let end = (start + 32) % 2 ^ 64
  assert (leb end memory_size_bytes) heap_entry_exceeds_memory
  assert (leb start end) slice_start_after_end
  write_words memory_size_bytes (write_word heap start value) rest

unfoldable pub expand_bootloader_heap : List (ℕ × ℕ) → ℕ → Outcome (List ℕ)
unfolding write_words
expand_bootloader_heap initial_heap_content memory_size_bytes =
    write_words memory_size_bytes (replicate memory_size_bytes 0) initial_heap_content
