-- ===== src/Bytecode.antt =====
-- crates/basic_types/src/bytecode.rs: bytecode hashes, and the padding of EVM bytecodes; and
-- `verify_bytecode_hash` of crates/airbender_verifier/src/lib.rs. SHA-256 is an argument.
pub mod Binding
pub mod Accepts
pub mod Padding
use eravm_airbender_verifier.Common.{
  ℕ, ◌-◌, ◌*◌, ◌/◌, ◌%◌, ◌^◌, Bool, true, false, ◌&&◌, Option, none, some, List, [], ◌∷◌, ◌++◌,
  length, take, drop, replicate, get_or, leb, not, ◌==◌, if◌then◌else◌, Outcome, ok, err, panic,
  ensure, assert, ◌>>=◌, ◌>>◌, unknown_bytecode_marker, not_evm_bytecode, bytecode_too_long,
  length_not_divisible_by_32, length_in_words_is_even, length_exceeds_bytecode, nonzero_padding,
  invalid_bytecode, unreachable_marker, padding_assertion, bytecode_hash_mismatch,
}
use eravm_airbender_verifier.Bytes.{be_bytes, be_value}
use eravm_airbender_verifier.Tree.Types.{H256}

abbrev pub max_bytecode_length_in_words : ℕ
max_bytecode_length_in_words = 2 ^ 16 - 1

abbrev pub max_bytecode_length_bytes : ℕ
max_bytecode_length_bytes = max_bytecode_length_in_words * 32

unfoldable pub validate_bytecode : List ℕ → Outcome (Unit {0})
validate_bytecode code = do
  ensure (leb (length code) max_bytecode_length_bytes) bytecode_too_long
  ensure (length code % 32 == 0) length_not_divisible_by_32
  ensure (not (length code / 32 % 2 == 0)) length_in_words_is_even

pub data BytecodeMarker : Type 0 where
  era_vm evm : BytecodeMarker

-- `kind as u8`
abbrev pub marker_byte : BytecodeMarker → ℕ
marker_byte era_vm = 1
marker_byte evm = 2

-- `BytecodeMarker::new`, on the first byte of the hash.
unfoldable pub new_marker : H256 → Option BytecodeMarker
new_marker bytecode_hash =
    let first = get_or (be_bytes 32 bytecode_hash) 0 0 in
    if first == 1 then some era_vm else (if first == 2 then some evm else none)

pub record BytecodeHash : Type 0 where
  pub value : H256

abbrev pub try_from_marker : H256 → Option BytecodeMarker → Outcome BytecodeHash
try_from_marker raw_hash none = err unknown_bytecode_marker
try_from_marker raw_hash (some kind) = ok (record { value = raw_hash })

unfoldable pub try_from : H256 → Outcome BytecodeHash
try_from raw_hash = try_from_marker raw_hash (new_marker raw_hash)

abbrev pub marker_or_panic : Option BytecodeMarker → Outcome BytecodeMarker
marker_or_panic none = panic unreachable_marker
marker_or_panic (some kind) = ok kind

unfoldable pub marker : BytecodeHash → Outcome BytecodeMarker
marker hash = marker_or_panic (new_marker hash.value)

abbrev pub length_of_marker : BytecodeMarker → ℕ → ℕ
length_of_marker era_vm raw_len = raw_len * 32
length_of_marker evm raw_len = raw_len

unfoldable pub len_in_bytes : BytecodeHash → Outcome ℕ
unfolding marker
len_in_bytes hash = do
  kind ← marker hash
  ok (length_of_marker kind (be_value (take 2 (drop 2 (be_bytes 32 hash.value)))))

-- `.expect(..)` on the validation.
abbrev pub expect_valid {κ} : {Next : Type κ} → Outcome (Unit {0}) → Outcome Next → Outcome Next
expect_valid (ok done) next = next
expect_valid (err e) next = panic invalid_bytecode
expect_valid (panic p) next = panic p

abbrev pub encoded_length : BytecodeMarker → ℕ → ℕ
encoded_length era_vm bytecode_len_in_bytes = bytecode_len_in_bytes / 32 % 2 ^ 16
encoded_length evm bytecode_len_in_bytes = bytecode_len_in_bytes % 2 ^ 16

module _ (sha256 : List ℕ → H256) where
  -- The digest with its first four bytes replaced.
  unfoldable pub hash_bytes_of : BytecodeMarker → List ℕ → ℕ → List ℕ
  hash_bytes_of kind bytecode len =
      marker_byte kind ∷ 0 ∷ be_bytes 2 len ++ drop 4 (be_bytes 32 (sha256 bytecode))

  unfoldable pub for_generic_bytecode : BytecodeMarker → List ℕ → ℕ → Outcome BytecodeHash
  unfolding validate_bytecode hash_bytes_of
  for_generic_bytecode kind bytecode bytecode_len_in_bytes =
      expect_valid (validate_bytecode bytecode) (
        ok (record {
          value =
              be_value (hash_bytes_of kind bytecode (encoded_length kind bytecode_len_in_bytes));
        }))

  unfoldable pub for_bytecode : List ℕ → Outcome BytecodeHash
  unfolding for_generic_bytecode
  for_bytecode bytecode = for_generic_bytecode era_vm bytecode (length bytecode)

  unfoldable pub for_evm_bytecode : ℕ → List ℕ → Outcome BytecodeHash
  unfolding for_generic_bytecode
  for_evm_bytecode raw_bytecode_len bytecode = for_generic_bytecode evm bytecode raw_bytecode_len

  -- The hash of the code for the marker that the claim has.
  unfoldable pub computed_hash : BytecodeHash → List ℕ → BytecodeMarker → Outcome BytecodeHash
  unfolding for_bytecode for_evm_bytecode len_in_bytes
  computed_hash claimed flat_bytecode era_vm = for_bytecode flat_bytecode
  computed_hash claimed flat_bytecode evm = do
    len ← len_in_bytes claimed
    for_evm_bytecode len flat_bytecode

  unfoldable pub verify_bytecode_hash : ℕ → List ℕ → Outcome (Unit {0})
  unfolding try_from marker computed_hash
  verify_bytecode_hash claimed_hash flat_bytecode = do
    claimed ← try_from claimed_hash
    kind ← marker claimed
    computed ← computed_hash claimed flat_bytecode kind
    ensure (computed.value == claimed.value) bytecode_hash_mismatch

-- `pad_evm_bytecode`, with its two assertions.
unfoldable pub pad_to_word : List ℕ → List ℕ
pad_to_word deployed_bytecode =
    if length deployed_bytecode % 32 == 0
    then deployed_bytecode
    else deployed_bytecode ++ replicate (32 - length deployed_bytecode % 32) 0

unfoldable pub pad_to_odd : List ℕ → List ℕ
pad_to_odd padded = if length padded / 32 % 2 == 0 then padded ++ replicate 32 0 else padded

unfoldable pub pad_evm_bytecode : List ℕ → Outcome (List ℕ)
unfolding pad_to_word pad_to_odd
pad_evm_bytecode deployed_bytecode = do
  let words = pad_to_word deployed_bytecode
  assert (length words % 32 == 0) padding_assertion
  let padded = pad_to_odd words
  assert (length padded / 32 % 2 == 1) padding_assertion
  ok padded

unfoldable pub for_raw_evm_bytecode : (List ℕ → H256) → List ℕ → Outcome BytecodeHash
unfolding for_evm_bytecode pad_evm_bytecode
for_raw_evm_bytecode sha256 bytecode = do
  padded_evm_bytecode ← pad_evm_bytecode bytecode
  for_evm_bytecode sha256 (length bytecode) padded_evm_bytecode

unfoldable pub all_zero : List ℕ → Bool
all_zero [] = true
all_zero (b ∷ bytes) = (b == 0) && all_zero bytes

abbrev pub is_evm : BytecodeMarker → Bool
is_evm era_vm = false
is_evm evm = true

unfoldable pub trim_padded_evm_bytecode : BytecodeHash → List ℕ → Outcome (List ℕ)
unfolding marker validate_bytecode len_in_bytes all_zero
trim_padded_evm_bytecode bytecode_hash raw = do
  kind ← marker bytecode_hash
  ensure (is_evm kind) not_evm_bytecode
  validate_bytecode raw
  bytecode_len ← len_in_bytes bytecode_hash
  ensure (leb bytecode_len (length raw)) length_exceeds_bytecode
  ensure (all_zero (drop bytecode_len raw)) nonzero_padding
  ok (take bytecode_len raw)

unfoldable pub trim_for_marker : BytecodeHash → List ℕ → BytecodeMarker → Outcome (List ℕ)
unfolding trim_padded_evm_bytecode
trim_for_marker bytecode_hash raw era_vm = ok raw
trim_for_marker bytecode_hash raw evm = trim_padded_evm_bytecode bytecode_hash raw

unfoldable pub trim_bytecode : BytecodeHash → List ℕ → Outcome (List ℕ)
unfolding marker trim_for_marker
trim_bytecode bytecode_hash raw = do
  kind ← marker bytecode_hash
  trim_for_marker bytecode_hash raw kind

abbrev pub is_ok {ℓ} : {A : Type ℓ} → Outcome A → Bool
is_ok (ok a) = true
is_ok (err e) = false
is_ok (panic p) = false

-- `raw_bytecode.first() == Some(&0)`
abbrev pub starts_with_zero : List ℕ → Bool
starts_with_zero [] = false
starts_with_zero (b ∷ bytes) = b == 0

unfoldable pub detect : List ℕ → BytecodeMarker
unfolding validate_bytecode
detect raw_bytecode =
    if is_ok (validate_bytecode raw_bytecode)
    then (if starts_with_zero raw_bytecode then era_vm else evm)
    else evm
