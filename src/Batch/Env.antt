-- ===== src/Batch/Env.antt =====
-- The inputs of a batch: crates/airbender_verifier/src/types.rs, crates/vm_interface/src/types/inputs,
-- and the types that they are made of. Transactions are an argument of the types that hold them.
use eravm_airbender_verifier.Common.{ℕ, Bool, true, false, ◌&&◌, Option, List, ◌==◌, list_eqb}
use eravm_airbender_verifier.Tree.Types.{H256}
use eravm_airbender_verifier.Witness.Defs.{WitnessInputMerklePaths}
use eravm_airbender_verifier.Storage.Log.{StorageKey}
use eravm_airbender_verifier.Commitment.Defs.{BlobHash}
use eravm_airbender_verifier.Batch.Version.{ProtocolVersionId}

pub record SystemContractCode : Type 0 where
  pub code : List ℕ
  pub hash : H256

pub record BaseSystemContracts : Type 0 where
  pub bootloader : SystemContractCode
  pub default_aa : SystemContractCode
  pub evm_emulator : Option SystemContractCode

pub data TxExecutionMode : Type 0 where
  verify_execute estimate_fee eth_call : TxExecutionMode

-- `== TxExecutionMode::VerifyExecute`
abbrev pub is_verify_execute : TxExecutionMode → Bool
is_verify_execute verify_execute = true
is_verify_execute estimate_fee = false
is_verify_execute eth_call = false

pub record SystemEnv : Type 0 where
  pub zk_porter_available : Bool
  pub version : ProtocolVersionId
  pub base_system_smart_contracts : BaseSystemContracts
  pub bootloader_gas_limit : ℕ
  pub execution_mode : TxExecutionMode
  pub default_validation_computational_gas_limit : ℕ
  pub chain_id : ℕ

pub record InteropRoot : Type 0 where
  pub chain_id : ℕ
  pub block_number : ℕ
  pub sides : List H256

abbrev pub interop_root_eqb : InteropRoot → InteropRoot → Bool
interop_root_eqb a b =
    (a.chain_id == b.chain_id)
    && ((a.block_number == b.block_number) && list_eqb ◌==◌ a.sides b.sides)

pub record L2BlockEnv : Type 0 where
  pub number : ℕ
  pub timestamp : ℕ
  pub prev_block_hash : H256
  pub max_virtual_blocks_to_create : ℕ
  pub interop_roots : List InteropRoot

pub record L2BlockExecutionData (Transaction : Type 0) : Type 0 where
  pub number : ℕ
  pub timestamp : ℕ
  pub prev_block_hash : H256
  pub virtual_blocks : ℕ
  pub txs : List Transaction
  pub interop_roots : List InteropRoot

unfoldable pub from_l2_block_data :
    {Transaction : Type 0} → L2BlockExecutionData Transaction → L2BlockEnv
from_l2_block_data execution_data = record {
  number = execution_data.number;
  timestamp = execution_data.timestamp;
  prev_block_hash = execution_data.prev_block_hash;
  max_virtual_blocks_to_create = execution_data.virtual_blocks;
  interop_roots = execution_data.interop_roots;
}

pub data BatchFeeInput : Type 0 where
  l1_pegged : (fair_l2_gas_price l1_gas_price : ℕ) → BatchFeeInput
  pubdata_independent : (fair_l2_gas_price fair_pubdata_price l1_gas_price : ℕ) → BatchFeeInput

pub data SettlementLayer : Type 0 where
  l1 gateway : ℕ → SettlementLayer

pub record L1BatchEnv : Type 0 where
  pub previous_batch_hash : Option H256
  pub number : ℕ
  pub timestamp : ℕ
  pub fee_input : BatchFeeInput
  pub interop_fee : ℕ
  pub fee_account : ℕ
  pub enforced_base_fee : Option ℕ
  pub first_l2_block : L2BlockEnv
  pub settlement_layer : SettlementLayer

pub data L2DaCommitmentScheme : Type 0 where
  no_scheme empty_no_da pubdata_keccak256 : L2DaCommitmentScheme
  blobs_and_pubdata_keccak256 blobs_zksync_os : L2DaCommitmentScheme

pub data L2PubdataValidator : Type 0 where
  address : ℕ → L2PubdataValidator
  commitment_scheme : L2DaCommitmentScheme → L2PubdataValidator

-- `matches!(.., L2PubdataValidator::Address(_))`
abbrev pub is_address : L2PubdataValidator → Bool
is_address (address a) = true
is_address (commitment_scheme s) = false

pub data PubdataType : Type 0 where
  rollup no_da avail celestia eigen object_store : PubdataType

pub record PubdataParams : Type 0 where
  pub pubdata_validator : L2PubdataValidator
  pub pubdata_type : PubdataType

-- The maps, as lists of their entries, in the order in which they are iterated.
pub record WitnessStorageState : Type 0 where
  pub read_storage_key : List (StorageKey × H256)
  pub is_write_initial : List (StorageKey × Bool)

-- Of the three lists that the verifier does not read, the costs are `i32`s, as their 32 bits.
pub record VmRunWitnessInputData : Type 0 where
  pub l1_batch_number : ℕ
  pub used_bytecodes : List (ℕ × List (List ℕ))
  pub initial_heap_content : List (ℕ × ℕ)
  pub protocol_version : ProtocolVersionId
  pub bootloader_code : List (List ℕ)
  pub default_account_code_hash : ℕ
  pub evm_emulator_code_hash : Option ℕ
  pub storage_refunds : List ℕ
  pub pubdata_costs : List ℕ
  pub witness_block_state : WitnessStorageState

pub record CommitmentInput : Type 0 where
  pub prev_batch_commitment : H256
  pub prev_meta_hash : H256
  pub prev_aux_hash : H256
  pub blob_hashes : List BlobHash
  pub blob_versioned_hashes : List H256

unfoldable pub total_blobs_in_commitment : ℕ
total_blobs_in_commitment = 16

pub record AirbenderVerifierInput (Transaction : Type 0) : Type 0 where
  pub vm_run_data : VmRunWitnessInputData
  pub merkle_paths : WitnessInputMerklePaths
  pub l2_blocks_execution_data : List (L2BlockExecutionData Transaction)
  pub l1_batch_env : L1BatchEnv
  pub system_env : SystemEnv
  pub pubdata_params : PubdataParams
  pub commitment_input : Option CommitmentInput
