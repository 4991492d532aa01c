-- ===== src/Tests/Codes.antt =====
-- Bytecode hashes of a word of zeros and of a raw EVM bytecode of two bytes.
use eravm_airbender_verifier.Common.{
  ℕ, ◌+◌, ◌^◌, ◌≡◌, refl, some, List, [], ◌∷◌, ok, arith, length, replicate,
}
use eravm_airbender_verifier.Bytes.{be_bytes, be_value}
use eravm_airbender_verifier.Tree.Types.{H256}
use eravm_airbender_verifier.Bytecode.{
  BytecodeHash, era_vm, new_marker, verify_bytecode_hash, pad_evm_bytecode, for_raw_evm_bytecode,
  trim_padded_evm_bytecode,
}
use eravm_airbender_verifier.Bytecode.Binding.{IsHashOf}
use eravm_airbender_verifier.Bytecode.Accepts.{verify_bytecode_hash_lem, verify_bytecode_hash-binds}
use eravm_airbender_verifier.Bytecode.Padding.{trim_padded_evm_bytecode-pad}

-- The code's length for its digest.
abbrev sha256 : List ℕ → H256
sha256 bytes = length bytes

-- The marker 1, a zero, the length 1, and a digest of 32.
abbrev claimed : H256
claimed = 2 ^ 248 + 2 ^ 224 + 32

abbrev code : List ℕ
code = replicate 32 0

code_accepted : verify_bytecode_hash sha256 claimed code ≡ ok tt
unfolding verify_bytecode_hash be_bytes be_value new_marker
code_accepted = refl

verify_bytecode_hash_lem_example :
    (verify_bytecode_hash sha256 claimed code ≡ ok tt → IsHashOf sha256 claimed code)
    × (IsHashOf sha256 claimed code → verify_bytecode_hash sha256 claimed code ≡ ok tt)
verify_bytecode_hash_lem_example = verify_bytecode_hash_lem sha256 claimed code

verify_bytecode_hash-binds_example :
    (be_bytes 28 (sha256 code) ≡ be_bytes 28 (sha256 code))
    × (new_marker claimed ≡ some era_vm → length code ≡ length code)
verify_bytecode_hash-binds_example =
    verify_bytecode_hash-binds sha256 claimed code code code_accepted code_accepted

trim_padded_evm_bytecode-pad_example :
    (padded : List ℕ) × (hash : BytecodeHash) × (pad_evm_bytecode (96 ∷ 1 ∷ []) ≡ ok padded)
    × (for_raw_evm_bytecode sha256 (96 ∷ 1 ∷ []) ≡ ok hash)
    × (verify_bytecode_hash sha256 hash.value padded ≡ ok tt)
    × (trim_padded_evm_bytecode hash padded ≡ ok (96 ∷ 1 ∷ []))
trim_padded_evm_bytecode-pad_example =
    trim_padded_evm_bytecode-pad sha256 (96 ∷ 1 ∷ []) (omega arith)
