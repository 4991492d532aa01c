-- ===== src/Bytecode/Accepts.antt =====
-- crates/airbender_verifier/src/lib.rs: `verify_bytecode_hash` accepts exactly the hash of a code.
use eravm_airbender_verifier.Common.{
  ℕ, ◌/◌, ◌%◌, ◌^◌, ◌<◌, ◌≡◌, refl, sym, ap, ◌∙◌, some, List, [], ◌∷◌, ◌++◌, length, take, drop,
  get_or, ok, arith, length-append, length-drop, take-append, eq→==, le→leb, ne→==,
}
use eravm_airbender_verifier.Bytes.{be_bytes, be_value}
use eravm_airbender_verifier.Bytes.Values.{
  length-be_bytes, drop-be_bytes, be_value-be_bytes, AreBytes, AreBytes-append, AreBytes-drop,
  be_bytes-AreBytes, be_value-injective, be_bytes-be_value,
}
use eravm_airbender_verifier.Tree.Types.{H256}
use eravm_airbender_verifier.Commitment.Keccak.{append-injective, bytes_injective}
use eravm_airbender_verifier.Bytecode.{
  validate_bytecode, BytecodeMarker, era_vm, evm, marker_byte, new_marker, try_from, marker,
  len_in_bytes, hash_bytes_of, for_generic_bytecode, for_bytecode, for_evm_bytecode, computed_hash,
  verify_bytecode_hash,
}
use eravm_airbender_verifier.Bytecode.Binding.{
  IsValidBytecode, IsHashOf, era_hash, evm_hash, verify_bytecode_hash-IsHashOf,
}

pub IsValid-validate_bytecode :
    (code : List ℕ) → IsValidBytecode code → validate_bytecode code ≡ ok tt
unfolding validate_bytecode
IsValid-validate_bytecode code valid = rw (
  le→leb _ _ valid.short,
  eq→== _ _ valid.whole_words,
  ne→== (length code / 32 % 2) 0 (omega (arith, valid.odd_words)),
)

era-evm : some era_vm ≡ some evm → ⊥
era-evm e = cc

module _ (sha256 : List ℕ → H256) where
  length-hash_bytes_of :
      (kind : BytecodeMarker) (code : List ℕ) (len : ℕ)
      → length (hash_bytes_of sha256 kind code len) ≡ 32
  unfolding hash_bytes_of
  length-hash_bytes_of kind code len = omega (
    arith,
    length-append (be_bytes 2 len) (drop 4 (be_bytes 32 (sha256 code))),
    length-be_bytes 2 len,
    length-drop 4 (be_bytes 32 (sha256 code)),
    length-be_bytes 32 (sha256 code),
  )

  marker_byte-lt : (kind : BytecodeMarker) → marker_byte kind < 256
  marker_byte-lt era_vm = omega arith
  marker_byte-lt evm = omega arith

  hash_bytes_of-AreBytes :
      (kind : BytecodeMarker) (code : List ℕ) (len : ℕ)
      → AreBytes (hash_bytes_of sha256 kind code len)
  unfolding hash_bytes_of
  hash_bytes_of-AreBytes kind code len = (
    marker_byte-lt kind,
    (
      omega arith,
      AreBytes-append (be_bytes 2 len) (drop 4 (be_bytes 32 (sha256 code)))
          (be_bytes-AreBytes 2 len)
          (AreBytes-drop 4 (be_bytes 32 (sha256 code)) (be_bytes-AreBytes 32 (sha256 code))),
    ),
  )

  -- The bytes of a hash are the ones that it was put together from.
  be_bytes-hash :
      (kind : BytecodeMarker) (code : List ℕ) (len : ℕ)
      → be_bytes 32 (be_value (hash_bytes_of sha256 kind code len))
        ≡ hash_bytes_of sha256 kind code len
  be_bytes-hash kind code len =
      ap (λ n. be_bytes n (be_value (hash_bytes_of sha256 kind code len)))
        (sym (length-hash_bytes_of kind code len))
      ∙ be_bytes-be_value (hash_bytes_of sha256 kind code len)
          (hash_bytes_of-AreBytes kind code len)

  pub new_marker-hash :
      (kind : BytecodeMarker) (code : List ℕ) (len : ℕ)
      → new_marker (be_value (hash_bytes_of sha256 kind code len)) ≡ some kind
  unfolding new_marker hash_bytes_of
  new_marker-hash era_vm code len = rw (be_bytes-hash era_vm code len) refl
  new_marker-hash evm code len = rw (be_bytes-hash evm code len) refl

  -- The two bytes of the length.
  pub length_bytes-hash :
      (code : List ℕ) (len : ℕ)
      → len < 2 ^ 16
      → be_value (take 2 (drop 2 (be_bytes 32 (be_value (hash_bytes_of sha256 evm code len)))))
        ≡ len
  unfolding hash_bytes_of
  length_bytes-hash code len small = rw (
    be_bytes-hash evm code len,
    ap (λ n. take n (be_bytes 2 len ++ drop 4 (be_bytes 32 (sha256 code))))
          (sym (length-be_bytes 2 len))
        ∙ take-append (be_bytes 2 len) (drop 4 (be_bytes 32 (sha256 code))),
    be_value-be_bytes 2 len small,
  )

  len_in_bytes-hash :
      (code : List ℕ) (len : ℕ)
      → len < 2 ^ 16
      → len_in_bytes (record { value = be_value (hash_bytes_of sha256 evm code len) }) ≡ ok len
  unfolding len_in_bytes marker
  len_in_bytes-hash code len small =
      rw (new_marker-hash evm code len, length_bytes-hash code len small)

  IsHashOf-verify :
      (claimed : H256) (code : List ℕ)
      → IsHashOf sha256 claimed code
      → verify_bytecode_hash sha256 claimed code ≡ ok tt
  unfolding verify_bytecode_hash try_from marker computed_hash for_bytecode for_evm_bytecode
      for_generic_bytecode
  IsHashOf-verify claimed code (era_hash valid same) =
      let fits : length code / 32 % 2 ^ 16 ≡ length code / 32 = omega (arith, valid.short) in
      rw (
        same,
        new_marker-hash era_vm code (length code / 32),
        new_marker-hash era_vm code (length code / 32),
        IsValid-validate_bytecode code valid,
        fits,
        eq→== (be_value (hash_bytes_of sha256 era_vm code (length code / 32))) _ refl,
      )
  IsHashOf-verify claimed code (evm_hash len small valid same) =
      let fits : len % 2 ^ 16 ≡ len = omega (arith, small) in
      rw (
        same,
        new_marker-hash evm code len,
        new_marker-hash evm code len,
        len_in_bytes-hash code len small,
        IsValid-validate_bytecode code valid,
        fits,
        eq→== (be_value (hash_bytes_of sha256 evm code len)) _ refl,
      )

  -- A claimed hash is accepted for a code exactly where the code has an odd number of words, at most
  -- 65535, and the hash is the marker, a zero, a length and the last 28 bytes of the code's SHA-256:
  -- the code's own length in words for an EraVM hash, any two-byte length for an EVM hash.
  pub verify_bytecode_hash_lem :
      (claimed : H256) (code : List ℕ)
      → (verify_bytecode_hash sha256 claimed code ≡ ok tt → IsHashOf sha256 claimed code)
        × (IsHashOf sha256 claimed code → verify_bytecode_hash sha256 claimed code ≡ ok tt)
  verify_bytecode_hash_lem claimed code =
      (verify_bytecode_hash-IsHashOf sha256 claimed code, IsHashOf-verify claimed code)

  tails_agree :
      (kind kind' : BytecodeMarker) (code code' : List ℕ) (len len' : ℕ)
      → be_value (hash_bytes_of sha256 kind code len)
        ≡ be_value (hash_bytes_of sha256 kind' code' len')
      → (marker_byte kind ≡ marker_byte kind')
        × ((be_bytes 2 len ≡ be_bytes 2 len')
            × (be_bytes 28 (sha256 code) ≡ be_bytes 28 (sha256 code')))
  unfolding hash_bytes_of
  tails_agree kind kind' code code' len len' e =
      let bytes =
        be_value-injective _ _ (hash_bytes_of-AreBytes kind code len)
          (hash_bytes_of-AreBytes kind' code' len')
          (length-hash_bytes_of kind code len ∙ sym (length-hash_bytes_of kind' code' len')) e in
      let (first, rest) =
        append-injective (marker_byte kind ∷ 0 ∷ []) (marker_byte kind' ∷ 0 ∷ []) refl bytes in
      let (lens, tails) =
        append-injective (be_bytes 2 len) (be_bytes 2 len')
          (length-be_bytes 2 len ∙ sym (length-be_bytes 2 len')) rest in
      (
        ap (λ bs. get_or bs 0 0) first,
        (
          lens,
          sym (drop-be_bytes 4 28 32 (sha256 code) refl)
              ∙ (tails ∙ drop-be_bytes 4 28 32 (sha256 code') refl),
        ),
      )

  -- Two codes that are accepted under one hash agree in the last 28 bytes of their SHA-256, and, where
  -- the hash is of EraVM code, in their length.
  pub verify_bytecode_hash-binds :
      (claimed : H256) (code code' : List ℕ)
      → verify_bytecode_hash sha256 claimed code ≡ ok tt
      → verify_bytecode_hash sha256 claimed code' ≡ ok tt
      → (be_bytes 28 (sha256 code) ≡ be_bytes 28 (sha256 code'))
        × (new_marker claimed ≡ some era_vm → length code ≡ length code')
  verify_bytecode_hash-binds claimed code code' e e' =
      agree (verify_bytecode_hash-IsHashOf sha256 claimed code e)
        (verify_bytecode_hash-IsHashOf sha256 claimed code' e')
    where
      not_era :
          (code : List ℕ) (len : ℕ)
          → claimed ≡ be_value (hash_bytes_of sha256 evm code len)
          → new_marker claimed ≡ some era_vm
          → ⊥
      not_era code len same is_era =
          era-evm (sym is_era ∙ (ap new_marker same ∙ new_marker-hash evm code len))

      agree :
          IsHashOf sha256 claimed code
          → IsHashOf sha256 claimed code'
          → (be_bytes 28 (sha256 code) ≡ be_bytes 28 (sha256 code'))
            × (new_marker claimed ≡ some era_vm → length code ≡ length code')
      agree (era_hash valid same) (era_hash valid' same') =
          let (_, (lens, tails)) = tails_agree era_vm era_vm code code' _ _ (sym same ∙ same') in
          let words : length code / 32 ≡ length code' / 32 =
            bytes_injective 2 _ _ (omega (arith, valid.short)) (omega (arith, valid'.short)) lens in
          (tails, λ is_era. omega (arith, words, valid.whole_words, valid'.whole_words))
      agree (era_hash valid same) (evm_hash len small valid' same') =
          let (kinds, _) = tails_agree era_vm evm code code' _ _ (sym same ∙ same') in
          absurd (omega (arith, kinds))
      agree (evm_hash len small valid same) (era_hash valid' same') =
          let (kinds, _) = tails_agree evm era_vm code code' _ _ (sym same ∙ same') in
          absurd (omega (arith, kinds))
      agree (evm_hash len small valid same) (evm_hash len' small' valid' same') =
          let (_, (_, tails)) = tails_agree evm evm code code' _ _ (sym same ∙ same') in
          (tails, λ is_era. absurd (not_era code len same is_era))
