-- ===== src/Batch/Hashing.antt =====
-- crates/types/src/commitment/mod.rs: the parts of a batch commitment, their bytes and their hashes;
-- and `compute_pass_through_data_hash` of crates/airbender_verifier/src/commitment.rs.
use eravm_airbender_verifier.Common.{
  ℕ, Bool, true, false, Option, none, some, List, [], ◌∷◌, ◌++◌, length, ◌==◌, if◌then◌else◌,
  Outcome, ok, err, panic, ensure, ◌>>=◌, ◌>>◌, serialized_size_mismatch, commitment_hash_expected,
}
use eravm_airbender_verifier.Bytes.{be_bytes, le_bytes}
use eravm_airbender_verifier.Tree.Types.{H256}
use eravm_airbender_verifier.Commitment.Defs.{Primitives, BlobHash}
use eravm_airbender_verifier.Writes.Diffs.{StateDiffRecord, encode_padded}
use eravm_airbender_verifier.Batch.Version.{ProtocolVersionId, is_post_1_5_0}

-- The trait, with the bytes as the result.
pub record SerializeCommitment {ℓ} (A : Type ℓ) : Type ℓ where
  pub serialized_size : ℕ
  pub serialize_commitment : A → List ℕ

-- The elements' bytes, packed.
unfoldable pub serialize_commitments {ℓ} : {A : Type ℓ} → SerializeCommitment A → List A → List ℕ
serialize_commitments format [] = []
serialize_commitments format (value ∷ values) =
    format.serialize_commitment value ++ serialize_commitments format values

-- The number of elements, then their bytes.
unfoldable pub pre_boojum_serialize_commitments {ℓ} :
    {A : Type ℓ} → SerializeCommitment A → List A → List ℕ
unfolding serialize_commitments
pre_boojum_serialize_commitments format values =
    be_bytes 4 (length values) ++ serialize_commitments format values

pub record L2ToL1Log : Type 0 where
  pub shard_id : ℕ
  pub is_service : Bool
  pub tx_number_in_block : ℕ
  pub sender : ℕ
  pub key : H256
  pub value : H256

-- `as u8`
abbrev pub bool_byte : Bool → ℕ
bool_byte true = 1
bool_byte false = 0

unfoldable pub log_format : SerializeCommitment L2ToL1Log
log_format = record {
  serialized_size = 88;
  serialize_commitment = λ log.
      be_bytes 1 log.shard_id
      ++ (be_bytes 1 (bool_byte log.is_service)
          ++ (be_bytes 2 log.tx_number_in_block
              ++ (be_bytes 20 log.sender ++ (be_bytes 32 log.key ++ be_bytes 32 log.value))));
}

pub record InitialStorageWrite : Type 0 where
  pub key : ℕ
  pub value : H256

unfoldable pub initial_write_format : SerializeCommitment InitialStorageWrite
initial_write_format = record {
  serialized_size = 64;
  serialize_commitment = λ write. le_bytes 32 write.key ++ be_bytes 32 write.value;
}

pub record RepeatedStorageWrite : Type 0 where
  pub index : ℕ
  pub value : H256

unfoldable pub repeated_write_format : SerializeCommitment RepeatedStorageWrite
repeated_write_format = record {
  serialized_size = 40;
  serialize_commitment = λ write. be_bytes 8 write.index ++ be_bytes 32 write.value;
}

unfoldable pub state_diff_format : SerializeCommitment StateDiffRecord
state_diff_format = record { serialized_size = 272; serialize_commitment = encode_padded }

pub record RootState : Type 0 where
  pub last_leaf_index : ℕ
  pub root_hash : H256

abbrev pub root_state_bytes : List RootState → List ℕ
root_state_bytes [] = []
root_state_bytes (state ∷ states) =
    be_bytes 8 state.last_leaf_index ++ (be_bytes 32 state.root_hash ++ root_state_bytes states)

-- `L1BatchPassThroughData`, by its shared states.
unfoldable pub pass_through_bytes : List RootState → Outcome (List ℕ)
pass_through_bytes shared_states = do
  let result = root_state_bytes shared_states
  ensure (length result == 80) serialized_size_mismatch
  ok result

-- The rollup's state, and the zkPorter's, always zero.
abbrev pub two_states : ℕ → H256 → List RootState
two_states last_leaf_index root_hash =
    record { last_leaf_index = last_leaf_index; root_hash = root_hash }
    ∷ record { last_leaf_index = 0; root_hash = 0 }
    ∷ []

pub record L1BatchMetaParameters : Type 0 where
  pub zkporter_is_available : Bool
  pub bootloader_code_hash : H256
  pub default_aa_code_hash : H256
  pub evm_emulator_code_hash : Option H256
  pub protocol_version : Option ProtocolVersionId

abbrev pub unwrap_or {ℓ} : {A : Type ℓ} → Option A → A → A
unwrap_or none a = a
unwrap_or (some b) a = b

abbrev pub has_emulator_slot : Option ProtocolVersionId → Bool
has_emulator_slot none = false
has_emulator_slot (some version) = is_post_1_5_0 version

unfoldable pub meta_bytes : L1BatchMetaParameters → List ℕ
meta_bytes p =
    bool_byte p.zkporter_is_available ∷ be_bytes 32 p.bootloader_code_hash
    ++ (be_bytes 32 p.default_aa_code_hash
        ++ (if has_emulator_slot p.protocol_version
            then be_bytes 32 (unwrap_or p.evm_emulator_code_hash p.default_aa_code_hash)
            else []))

pub record AuxCommitments : Type 0 where
  pub events_queue_commitment : H256
  pub bootloader_initial_content_commitment : H256

pub record L1BatchAuxiliaryCommonOutput : Type 0 where
  pub l2_l1_logs_merkle_root : H256
  pub protocol_version : ProtocolVersionId

pub data L1BatchAuxiliaryOutput : Type 0 where
  pre_boojum :
      (common : L1BatchAuxiliaryCommonOutput) (l2_l1_logs_linear_hash : H256)
      (initial_writes_compressed : List ℕ) (initial_writes_hash : H256)
      (repeated_writes_compressed : List ℕ) (repeated_writes_hash : H256)
      → L1BatchAuxiliaryOutput
  post_boojum :
      (common : L1BatchAuxiliaryCommonOutput) (system_logs_linear_hash : H256)
      (state_diffs_compressed : List ℕ) (state_diffs_hash : H256) (aux_commitments : AuxCommitments)
      (blob_hashes : List BlobHash) (aggregation_root : H256) (local_root : H256)
      → L1BatchAuxiliaryOutput

abbrev pub blob_hash_bytes : List BlobHash → List ℕ
blob_hash_bytes [] = []
blob_hash_bytes (b ∷ blob_hashes) =
    be_bytes 32 b.linear_hash ++ (be_bytes 32 b.commitment ++ blob_hash_bytes blob_hashes)

unfoldable pub aux_bytes : L1BatchAuxiliaryOutput → List ℕ
aux_bytes
      (pre_boojum common logs_hash initial_compressed initial_hash repeated_compressed
        repeated_hash) =
    be_bytes 32 common.l2_l1_logs_merkle_root
    ++ (be_bytes 32 logs_hash ++ (be_bytes 32 initial_hash ++ be_bytes 32 repeated_hash))
aux_bytes
      (post_boojum common logs_hash diffs diffs_hash aux_commitments blob_hashes aggregation
        local) =
    be_bytes 32 logs_hash
    ++ (be_bytes 32 diffs_hash
        ++ (be_bytes 32 aux_commitments.bootloader_initial_content_commitment
            ++ (be_bytes 32 aux_commitments.events_queue_commitment
                ++ blob_hash_bytes blob_hashes)))

pub record L1BatchCommitment : Type 0 where
  pub pass_through_data : List RootState
  pub auxiliary_output : L1BatchAuxiliaryOutput
  pub meta_parameters : L1BatchMetaParameters

pub record L1BatchCommitmentHash : Type 0 where
  pub pass_through_data : H256
  pub aux_output : H256
  pub meta_parameters : H256
  pub commitment : H256

-- `.expect(..)` on a result.
abbrev pub expect_hash {ℓ} : {A : Type ℓ} → Outcome A → Outcome A
expect_hash (ok a) = ok a
expect_hash (err e) = panic commitment_hash_expected
expect_hash (panic p) = panic p

module _ (primitives : Primitives) where
  unfoldable pub pass_through_hash : List RootState → Outcome H256
  unfolding pass_through_bytes
  pass_through_hash shared_states = do
    bytes ← pass_through_bytes shared_states
    ok (primitives.keccak256 bytes)

  unfoldable pub meta_hash : L1BatchMetaParameters → H256
  unfolding meta_bytes
  meta_hash p = primitives.keccak256 (meta_bytes p)

  unfoldable pub aux_hash : L1BatchAuxiliaryOutput → H256
  unfolding aux_bytes
  aux_hash output = primitives.keccak256 (aux_bytes output)

  unfoldable pub commitment_hash : L1BatchCommitment → Outcome L1BatchCommitmentHash
  unfolding pass_through_hash meta_hash aux_hash
  commitment_hash c = do
    pass_through_data_hash ← pass_through_hash c.pass_through_data
    let metadata_hash = meta_hash c.meta_parameters
    let auxiliary_output_hash = aux_hash c.auxiliary_output
    ok (record {
      pass_through_data = pass_through_data_hash;
      aux_output = auxiliary_output_hash;
      meta_parameters = metadata_hash;
      commitment = primitives.keccak256 (
          be_bytes 32 pass_through_data_hash
          ++ (be_bytes 32 metadata_hash ++ be_bytes 32 auxiliary_output_hash));
    })

  unfoldable pub compute_pass_through_data_hash : ℕ → H256 → Outcome H256
  unfolding pass_through_hash
  compute_pass_through_data_hash enumeration_index state_root =
      expect_hash (pass_through_hash (two_states enumeration_index state_root))
