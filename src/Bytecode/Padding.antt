-- ===== src/Bytecode/Padding.antt =====
-- crates/basic_types/src/bytecode.rs: padding an EVM bytecode and taking the padding off again.
use eravm_airbender_verifier.Common.{
  ℕ, zero, suc, ◌+◌, ◌-◌, ◌*◌, ◌/◌, ◌%◌, ◌^◌, ◌<◌, ◌≡◌, inl, inr, refl, sym, ap, ◌∙◌, true, List,
  [], ◌∷◌, ◌++◌, length, replicate, ◌==◌, ok, arith, length-append, length-replicate, take-append,
  drop-append, Bool-cases, ==→eq, ==→ne, eq→==, le→leb,
}
use eravm_airbender_verifier.Tree.Types.{H256}
use eravm_airbender_verifier.Bytes.{be_value}
use eravm_airbender_verifier.Bytecode.{
  BytecodeHash, evm, marker, hash_bytes_of, for_generic_bytecode, for_evm_bytecode,
  for_raw_evm_bytecode, pad_to_word, pad_to_odd, pad_evm_bytecode, all_zero,
  trim_padded_evm_bytecode, verify_bytecode_hash,
}
use eravm_airbender_verifier.Bytecode.Binding.{IsValidBytecode, evm_hash}
use eravm_airbender_verifier.Bytecode.Accepts.{
  IsValid-validate_bytecode, new_marker-hash, length_bytes-hash, verify_bytecode_hash_lem,
}

append_nil : (xs : List ℕ) → xs ++ [] ≡ xs
append_nil [] = refl
append_nil (x ∷ xs) = ap (λ ys. x ∷ ys) (append_nil xs)

append_assoc : (xs ys zs : List ℕ) → (xs ++ ys) ++ zs ≡ xs ++ (ys ++ zs)
append_assoc [] ys zs = refl
append_assoc (x ∷ xs) ys zs = ap (λ l. x ∷ l) (append_assoc xs ys zs)

abbrev zeros : ℕ → List ℕ
zeros n = replicate n 0

replicate-append : (m n : ℕ) → zeros m ++ zeros n ≡ zeros (m + n)
replicate-append zero n = ap zeros (omega arith)
replicate-append (suc m) n = ap (λ l. 0 ∷ l) (replicate-append m n) ∙ ap zeros (unfold_suc m n)
  where
    unfold_suc : (m n : ℕ) → suc (m + n) ≡ suc m + n
    unfold_suc m n = omega arith

all_zero-replicate : (n : ℕ) → all_zero (zeros n) ≡ true
unfolding all_zero
all_zero-replicate zero = refl
all_zero-replicate (suc n) = all_zero-replicate n

pad_to_word-zeros :
    (code : List ℕ)
    → (k : ℕ) × (pad_to_word code ≡ code ++ zeros k) × (k < 32) × ((length code + k) % 32 ≡ 0)
unfolding pad_to_word
pad_to_word-zeros code = elim (Bool-cases (length code % 32 == 0)) [
  | inl whole ↦
      let e = ==→eq _ _ whole in
      (0, rw whole (sym (append_nil code)), omega arith, omega (arith, e))
  | inr part ↦
      let ne = ==→ne _ _ part in
      (32 - length code % 32, rw part refl, omega (arith, ne), omega (arith, ne))
]

pad_to_odd-zeros :
    (words : List ℕ)
    → length words % 32 ≡ 0
    → (k : ℕ) × (pad_to_odd words ≡ words ++ zeros k)
      × (length words + k < (length words / 32 + 2) * 32)
      × ((length words + k) % 32 ≡ 0)
      × ((length words + k) / 32 % 2 ≡ 1)
unfolding pad_to_odd
pad_to_odd-zeros words whole = elim (Bool-cases (length words / 32 % 2 == 0)) [
  | inl even ↦
      let e = ==→eq _ _ even in
      (32, rw even refl, omega arith, omega (arith, whole), omega (arith, e, whole))
  | inr odd ↦
      let ne = ==→ne _ _ odd in
      (0, rw odd (sym (append_nil words)), omega arith, omega (arith, whole), omega (arith, ne))
]

-- A padded code: the code and zeros, valid.
pad_evm_bytecode-zeros :
    (code : List ℕ)
    → length code < 2 ^ 16
    → (k : ℕ) × (pad_evm_bytecode code ≡ ok (code ++ zeros k)) × IsValidBytecode (code ++ zeros k)
unfolding pad_evm_bytecode
pad_evm_bytecode-zeros code small =
    let (k, words, less, whole) = pad_to_word-zeros code in
    let len : length (code ++ zeros k) ≡ length code + k =
      omega (arith, length-append code (zeros k), length-replicate {A = ℕ} k 0) in
    let (j, padded, bound, whole', odd) =
      pad_to_odd-zeros (code ++ zeros k) (omega (arith, len, whole)) in
    let joined : (code ++ zeros k) ++ zeros j ≡ code ++ zeros (k + j) =
      append_assoc code (zeros k) (zeros j) ∙ ap (λ l. code ++ l) (replicate-append k j) in
    let total : length (code ++ zeros (k + j)) ≡ length (code ++ zeros k) + j =
      omega (arith, len, length-append code (zeros (k + j)), length-replicate {A = ℕ} (k + j) 0) in
    (
      k + j,
      rw
          (
            words,
            eq→== (length (code ++ zeros k) % 32) 0 (omega (arith, len, whole)),
            padded,
            joined,
            eq→== (length (code ++ zeros (k + j)) / 32 % 2) 1 (omega (arith, total, odd)),
          )
          refl,
      record {
        short = omega (arith, total, len, bound, less, small);
        whole_words = omega (arith, total, whole');
        odd_words = omega (arith, total, odd);
      },
    )

-- What a raw EVM bytecode of less than 2^16 bytes is stored as: its padding and its hash are there,
-- the verifier accepts the padded code under the hash, and without the padding it is the raw code
-- again.
pub trim_padded_evm_bytecode-pad :
    (sha256 : List ℕ → H256) (code : List ℕ)
    → length code < 2 ^ 16
    → (padded : List ℕ) × (hash : BytecodeHash) × (pad_evm_bytecode code ≡ ok padded)
      × (for_raw_evm_bytecode sha256 code ≡ ok hash)
      × (verify_bytecode_hash sha256 hash.value padded ≡ ok tt)
      × (trim_padded_evm_bytecode hash padded ≡ ok code)
unfolding for_raw_evm_bytecode for_evm_bytecode for_generic_bytecode trim_padded_evm_bytecode marker
trim_padded_evm_bytecode-pad sha256 code small =
    let (k, padded, valid) = pad_evm_bytecode-zeros code small in
    let hash : BytecodeHash = record {
      value = be_value (hash_bytes_of sha256 evm (code ++ zeros k) (length code));
    } in
    let fits : length code % 2 ^ 16 ≡ length code = omega (arith, small) in
    let checked = IsValid-validate_bytecode (code ++ zeros k) valid in
    (
      code ++ zeros k,
      hash,
      padded,
      rw (padded, checked, fits) refl,
      (verify_bytecode_hash_lem sha256 hash.value (code ++ zeros k)).1
          (evm_hash (length code) small valid refl),
      rw
          (
            new_marker-hash sha256 evm (code ++ zeros k) (length code),
            checked,
            length_bytes-hash sha256 (code ++ zeros k) (length code) small,
            le→leb (length code) (length (code ++ zeros k))
                (omega (arith, length-append code (zeros k))),
            drop-append code (zeros k),
            all_zero-replicate k,
            take-append code (zeros k),
          )
          refl,
    )
