-- ===== src/Bytecode/Binding.antt =====
-- crates/airbender_verifier/src/lib.rs: what an accepted bytecode hash says of the code.
use eravm_airbender_verifier.Common.{
  ℕ, ◌/◌, ◌%◌, ◌^◌, ◌<◌, ◌≤◌, ◌≡◌, refl, sym, ap, ◌∙◌, Bool, true, false, not, Option, none, some,
  List, length, Outcome, ok, err, panic, >>=-eq-ok, ensure-eq-ok, ensure-true, ok-injective, ==→eq,
  ==→ne, leb→le, arith, bytecode_hash_mismatch, bytecode_too_long, length_not_divisible_by_32,
  length_in_words_is_even,
}
use eravm_airbender_verifier.Bytes.{be_value}
use eravm_airbender_verifier.Tree.Types.{H256}
use eravm_airbender_verifier.Bytecode.{
  max_bytecode_length_bytes, validate_bytecode, BytecodeMarker, era_vm, evm, new_marker,
  BytecodeHash, try_from_marker, try_from, marker, len_in_bytes, expect_valid, encoded_length,
  hash_bytes_of, for_generic_bytecode, for_bytecode, for_evm_bytecode, computed_hash,
  verify_bytecode_hash,
}

-- A code of an odd number of words, not too many of them.
pub record IsValidBytecode (code : List ℕ) : Type 0 where
  pub short : length code ≤ max_bytecode_length_bytes
  pub whole_words : length code % 32 ≡ 0
  pub odd_words : length code / 32 % 2 ≡ 1

not-true : (b : Bool) → not b ≡ true → b ≡ false
not-true true e = sym e
not-true false e = refl

pub validate_bytecode-IsValid :
    (code : List ℕ) {u : Unit {0}} → validate_bytecode code ≡ ok u → IsValidBytecode code
unfolding validate_bytecode
validate_bytecode-IsValid code e =
    let (short, e₁) = ensure-eq-ok _ bytecode_too_long _ e in
    let (whole, e₂) = ensure-eq-ok _ length_not_divisible_by_32 _ e₁ in
    let odd = ensure-true _ length_in_words_is_even e₂ in
    let ne = ==→ne (length code / 32 % 2) 0 (not-true _ odd) in
    record {
      short = leb→le _ _ short;
      whole_words = ==→eq _ _ whole;
      odd_words = omega (arith, ne);
    }

module _ (sha256 : List ℕ → H256) where
  -- The hash of a code, by its kind: an EraVM code's own length is in it.
  pub data IsHashOf (claimed : H256) (code : List ℕ) : Type 0 where
    era_hash :
        IsValidBytecode code
        → claimed ≡ be_value (hash_bytes_of sha256 era_vm code (length code / 32))
        → IsHashOf claimed code
    evm_hash :
        (len : ℕ)
        → len < 2 ^ 16
        → IsValidBytecode code
        → claimed ≡ be_value (hash_bytes_of sha256 evm code len)
        → IsHashOf claimed code

  expect_valid-ok :
      (checked : Outcome (Unit {0})) (next : Outcome BytecodeHash) {hash : BytecodeHash}
      → expect_valid checked next ≡ ok hash
      → (checked ≡ ok tt) × (next ≡ ok hash)
  expect_valid-ok (ok tt) next e = (refl, e)
  expect_valid-ok (err message) next e = cc
  expect_valid-ok (panic stop) next e = cc

  for_generic-ok :
      (kind : BytecodeMarker) (code : List ℕ) (len : ℕ) (hash : BytecodeHash)
      → for_generic_bytecode sha256 kind code len ≡ ok hash
      → IsValidBytecode code
        × (be_value (hash_bytes_of sha256 kind code (encoded_length kind len)) ≡ hash.value)
  unfolding for_generic_bytecode
  for_generic-ok kind code len hash e =
      let (checked, made) = expect_valid-ok (validate_bytecode code) _ e in
      (validate_bytecode-IsValid code checked, ap (λ h. h.value) (ok-injective made))

  computed-IsHashOf :
      (claimed computed : BytecodeHash) (code : List ℕ) (kind : BytecodeMarker)
      → computed_hash sha256 claimed code kind ≡ ok computed
      → IsHashOf computed.value code
  unfolding computed_hash for_bytecode for_evm_bytecode
  computed-IsHashOf claimed computed code era_vm e =
      let (valid, made) = for_generic-ok era_vm code (length code) computed e in
      let fits : length code / 32 % 2 ^ 16 ≡ length code / 32 = omega (arith, valid.short) in
      era_hash valid (sym made ∙ ap (λ n. be_value (hash_bytes_of sha256 era_vm code n)) fits)
  computed-IsHashOf claimed computed code evm e =
      let (len, _, e₁) = >>=-eq-ok (len_in_bytes claimed) _ e in
      let (valid, made) = for_generic-ok evm code len computed e₁ in
      evm_hash (len % 2 ^ 16) (omega arith) valid (sym made)

  pub verify_bytecode_hash-IsHashOf :
      (claimed : H256) (code : List ℕ) {u : Unit {0}}
      → verify_bytecode_hash sha256 claimed code ≡ ok u
      → IsHashOf claimed code
  unfolding verify_bytecode_hash try_from
  verify_bytecode_hash-IsHashOf claimed code e =
      let (hash, e₁, e₂) = >>=-eq-ok (try_from claimed) _ e in
      let (kind, e₃, e₄) = >>=-eq-ok (marker hash) _ e₂ in
      let (computed, e₅, e₆) = >>=-eq-ok (computed_hash sha256 hash code kind) _ e₄ in
      let same = ==→eq _ _ (ensure-true _ bytecode_hash_mismatch e₆) in
      rw (try_from-value claimed (new_marker claimed) hash e₁ ∙ sym same)
        (computed-IsHashOf hash computed code kind e₅)
    where
      try_from-value :
          (raw : H256) (kind : Option BytecodeMarker) (hash : BytecodeHash)
          → try_from_marker raw kind ≡ ok hash
          → raw ≡ hash.value
      try_from-value raw none hash e = cc
      try_from-value raw (some kind) hash e = ap (λ h. h.value) (ok-injective e)
