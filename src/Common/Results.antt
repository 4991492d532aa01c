-- ===== src/Common/Results.antt =====
-- Fallible code: `anyhow::Result` with the failing check as the error, and panics as a third outcome.
use mathlib.Core.Path.{◌≡◌, refl, ap}
use mathlib.Core.Logic.{◌≢◌}
use mathlib.Core.Bool.{Bool, true, false}
use eravm_airbender_verifier.Common.Tests.{if◌then◌else◌}

-- One constructor for each message of `ensure!`, `bail!` and `context`.
pub data Error : Type 0 where
  -- crates/merkle_tree/src/witness.rs
  path_before_normalisation not_legacy_form : Error
  -- crates/airbender_verifier/src/merkle_witness.rs
  read_marked_first_write repeated_write_index_zero conflicting_prestate : Error
  count_mismatch root_hash_unavailable legacy_form path_too_long key_mismatch : Error
  op_root_mismatch base_not_read base_is_read prev_hash_mismatch next_hash_mismatch : Error
  -- crates/airbender_verifier/src/commitment.rs
  blob_count_mismatch commitment_of_no_blob no_pubdata_for_blob : Error
  linear_hash_mismatch opening_commitment_mismatch : Error
  -- crates/merkle_tree/src/hasher/proofs.rs
  instructions_mismatch missing_value root_mismatch : Error
  -- crates/airbender_verifier/src/lib.rs
  map_log_tree_failed : Error
  commitment_input_missing unsupported_protocol_version unsupported_by_fast_vm : Error
  previous_batch_hash_missing enforced_base_fee_present batch_number_mismatch : Error
  protocol_version_mismatch incompatible_pubdata_validator : Error
  wrong_execution_mode wrong_validation_gas_limit first_l2_block_mismatch : Error
  bytecode_hash_mismatch default_account_mismatch evm_emulator_mismatch : Error
  bootloader_code_mismatch state_diffs_missing bootloader_memory_missing : Error
  zk_porter_mismatch prev_commitment_mismatch pubdata_missing blob_hashes_length : Error
  last_block_not_empty batch_not_finalized compression_failed transaction_halted : Error
  -- crates/basic_types/src/bytecode.rs
  unknown_bytecode_marker not_evm_bytecode bytecode_too_long : Error
  length_not_divisible_by_32 length_in_words_is_even : Error
  length_exceeds_bytecode nonzero_padding : Error
  -- crates/types/src/commitment/mod.rs
  serialized_size_mismatch : Error

-- What an `assert!`, an `expect`, an index or an arithmetic operation may stop the program with.
pub data Panic : Type 0 where
  -- crates/merkle_tree/src/hasher
  merkle_path_overflow : Panic
  -- crates/airbender_verifier/src/commitment.rs
  heap_entry_exceeds_memory slice_start_after_end opening_value_not_32_bytes : Panic
  -- crates/vm_interface/src/storage/snapshot.rs
  unknown_storage_slot : Panic
  -- crates/multivm/src/utils/deduplicator.rs
  tried_removing_before_insertion no_snapshot : Panic
  -- crates/multivm/src/versions/vm_latest/old_vm/history_recorder.rs
  pop_from_empty timestamps_not_monotonic : Panic
  -- crates/basic_types/src/bytecode.rs
  invalid_bytecode unreachable_marker padding_assertion : Panic
  -- crates/multivm/src/utils/mod.rs
  unsupported_vm_version : Panic
  -- crates/types/src/commitment/mod.rs
  commitment_hash_expected : Panic
  -- crates/types/src/storage/writes
  enumeration_index_too_large too_many_initial_writes compressed_length_overflow : Panic

pub data Outcome {ℓ} (A : Type ℓ) : Type ℓ where
  ok : A → Outcome A
  err : Error → Outcome A
  panic : Panic → Outcome A

-- `?`, and a check whose value is not used.
abbrev pub ◌>>=◌ {ℓ κ} :
    {Value : Type ℓ} {Next : Type κ} → Outcome Value → (Value → Outcome Next) → Outcome Next
panic stop >>= next = panic stop
err message >>= next = err message
ok value >>= next = next value

-- `assert!`
abbrev pub assert : Bool → Panic → Outcome (Unit {0})
assert holds stop = if holds then ok tt else panic stop

abbrev pub ◌>>◌ {κ} : {Next : Type κ} → Outcome (Unit {0}) → Outcome Next → Outcome Next
check >> next = check >>= λ done. next

infixl 5 ◌>>=◌ ◌>>◌
-- `anyhow::ensure!`
abbrev pub ensure : Bool → Error → Outcome (Unit {0})
ensure holds message = if holds then ok tt else err message

-- Accepted with a value, or not accepted: what a caller that ignores the message can see.
abbrev pub SameAcceptance {ℓ} : {A : Type ℓ} → Outcome A → Outcome A → Type ℓ
SameAcceptance {A} m n = (a : A) → (m ≡ ok a → n ≡ ok a) × (n ≡ ok a → m ≡ ok a)

-- What a success says of the check before it.
pub ensure-eq-ok {κ} :
    {Next : Type κ} (holds : Bool) (message : Error) (next : Outcome Next) {value : Next}
    → (ensure holds message >> next) ≡ ok value
    → (holds ≡ true) × (next ≡ ok value)
ensure-eq-ok false message next success = cc
ensure-eq-ok true message next success = (refl, success)

pub ensure-true :
    (holds : Bool) (message : Error) {u : Unit {0}} → ensure holds message ≡ ok u → holds ≡ true
ensure-true false message success = cc
ensure-true true message success = refl

-- A success of two steps is a success of the first, and of the second on its value.
pub >>=-eq-ok {ℓ κ} :
    {Value : Type ℓ} {Next : Type κ} (first : Outcome Value) (second : Value → Outcome Next)
    {last : Next}
    → (first >>= second) ≡ ok last
    → (value : Value) × (first ≡ ok value) × (second value ≡ ok last)
>>=-eq-ok (panic stop) second success = cc
>>=-eq-ok (err message) second success = cc
>>=-eq-ok (ok value) second success = (value, refl, success)

abbrev ok_or {ℓ} : {A : Type ℓ} → A → Outcome A → A
ok_or d (ok a) = a
ok_or d (err e) = d
ok_or d (panic p) = d

pub ok-injective {ℓ} : {A : Type ℓ} {a b : A} → ok a ≡ ok b → a ≡ b
ok-injective {a = a} e = ap (ok_or a) e

-- An outcome that is no panic, and the steps that it is made of.
abbrev pub NeverPanics {ℓ} : {A : Type ℓ} → Outcome A → Type ℓ
NeverPanics o = (stop : Panic) → o ≢ panic stop

pub ok-NeverPanics {ℓ} : {A : Type ℓ} (a : A) → NeverPanics (ok a)
ok-NeverPanics a stop e = cc

pub err-NeverPanics {ℓ} : {A : Type ℓ} (message : Error) → NeverPanics {A = A} (err message)
err-NeverPanics message stop e = cc

pub ensure-NeverPanics : (holds : Bool) (message : Error) → NeverPanics (ensure holds message)
ensure-NeverPanics true message = ok-NeverPanics tt
ensure-NeverPanics false message = err-NeverPanics message

pub >>=-NeverPanics {ℓ κ} :
    {Value : Type ℓ} {Next : Type κ} (first : Outcome Value) (second : Value → Outcome Next)
    → NeverPanics first
    → ((value : Value) → NeverPanics (second value))
    → NeverPanics (first >>= second)
>>=-NeverPanics (ok value) second h k = k value
>>=-NeverPanics (err message) second h k = err-NeverPanics message
>>=-NeverPanics (panic stop) second h k = absurd (h stop refl)

pub check-NeverPanics {κ} :
    {Next : Type κ} (holds : Bool) (message : Error) (next : Outcome Next)
    → NeverPanics next
    → NeverPanics (ensure holds message >> next)
check-NeverPanics true message next h = h
check-NeverPanics false message next h = err-NeverPanics message
