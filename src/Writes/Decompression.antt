-- ===== src/Writes/Decompression.antt =====
-- crates/types/src/storage/writes/compression.rs: a compressed write, read back.
use native.Mathlib.Nat.{pow-le-pow_right, pow-suc}
use eravm_airbender_verifier.Common.{
  ℕ, zero, suc, ◌+◌, ◌-◌, ◌*◌, ◌/◌, ◌%◌, ◌^◌, ◌≡◌, ◌≤◌, ◌<◌, refl, ap, ◌∙◌, Option, none, some,
  List, [], ◌∷◌, ◌++◌, length, ltb, ◌==◌, if◌then◌else◌, take, drop, arith, take-append,
  drop-append, length-append, ge→ltb,
}
use eravm_airbender_verifier.Bytes.{be_bytes, be_value}
use eravm_airbender_verifier.Bytes.Values.{be_value-be_bytes, drop-be_bytes}
use eravm_airbender_verifier.Writes.Compression.{byte_size}

-- What an operation makes of the previous value and the bytes.
abbrev pub apply_operation : ℕ → ℕ → ℕ → ℕ
apply_operation id prev_value diff =
    if id == 1
    then (prev_value + diff) % 2 ^ 256
    else (if id == 2 then ((prev_value + 2 ^ 256) - diff) % 2 ^ 256 else diff)

abbrev pub compressed_size : ℕ → ℕ
compressed_size metadata = if metadata % 8 == 0 then 32 else metadata / 8

-- The format's reader: the value, and the bytes after it.
unfoldable pub decompress : ℕ → List ℕ → Option (ℕ × List ℕ)
decompress prev_value [] = none
decompress prev_value (metadata ∷ bytes) =
    let size = compressed_size metadata in
    if ltb (length bytes) size
    then none
    else some
        (apply_operation (metadata % 8) prev_value (be_value (take size bytes)), drop size bytes)

-- The bytes stand for the new value, whatever follows them.
abbrev pub Decodes : ℕ → ℕ → List ℕ → Type 0
Decodes prev_value new_value bytes =
    (rest : List ℕ) → decompress prev_value (bytes ++ rest) ≡ some (new_value, rest)

-- `bits` of `U256`: a word is below 2 to its bits, of which there are 256 at most.
pub record IsBits (bits : ℕ → ℕ) : Type 0 where
  pub below : (n : ℕ) → n < 2 ^ 256 → n < 2 ^ bits n

-- `bits` of `U256` counts none in excess: a number below a power of two has no more than its exponent.
pub record IsBitLength (bits : ℕ → ℕ) : Type 0 where
  pub least : (n k : ℕ) → n < 2 ^ k → bits n ≤ k

pub decompress-framed :
    (prev_value metadata : ℕ) (bytes rest : List ℕ)
    → compressed_size metadata ≡ length bytes
    → decompress prev_value (metadata ∷ bytes ++ rest)
      ≡ some (apply_operation (metadata % 8) prev_value (be_value bytes), rest)
unfolding decompress
decompress-framed prev_value metadata bytes rest s = rw (
  s,
  ge→ltb (length (bytes ++ rest)) (length bytes) (omega (arith, length-append bytes rest)),
  take-append,
  drop-append,
)

-- The low `size` bytes of a difference that fits them.
pub diff_bytes :
    (diff size : ℕ)
    → size ≤ 30
    → diff < 256 ^ size
    → be_value (drop (32 - size) (be_bytes 32 diff)) ≡ diff
diff_bytes diff size h small =
    rw (drop-be_bytes (32 - size) size 32 diff (omega arith), be_value-be_bytes size diff small)

two_pow_suc : (k j : ℕ) → j ≡ suc k → 2 ^ j ≡ 2 ^ k * 2
two_pow_suc k j e = ap (λ n. 2 ^ n) e ∙ pow-suc 2 k

two_pow_add_8 : (k : ℕ) → 2 ^ (k + 8) ≡ 2 ^ k * 256
two_pow_add_8 k = omega (
  arith,
  two_pow_suc k (k + 1) (omega arith),
  two_pow_suc (k + 1) (k + 2) (omega arith),
  two_pow_suc (k + 2) (k + 3) (omega arith),
  two_pow_suc (k + 3) (k + 4) (omega arith),
  two_pow_suc (k + 4) (k + 5) (omega arith),
  two_pow_suc (k + 5) (k + 6) (omega arith),
  two_pow_suc (k + 6) (k + 7) (omega arith),
  two_pow_suc (k + 7) (k + 8) (omega arith),
)

pub pow_bytes : (n : ℕ) → 2 ^ (8 * n) ≡ 256 ^ n
pow_bytes zero = refl
pow_bytes (suc n) =
    let step : 2 ^ (8 * suc n) ≡ 2 ^ (8 * n + 8) = ap (λ k. 2 ^ k) (omega arith) in
    omega (arith, step, two_pow_add_8 (8 * n), pow_bytes n, pow-suc 256 n)

module _ (bits : ℕ → ℕ) (laws : IsBits bits) where
  pub byte_size-below : (n : ℕ) → n < 2 ^ 256 → n < 256 ^ byte_size bits n
  unfolding byte_size
  byte_size-below n h =
      let grow : 2 ^ bits n ≤ 2 ^ (8 * byte_size bits n) =
        pow-le-pow_right (omega arith) (omega arith) in
      omega (arith, laws.below n h, grow, pow_bytes (byte_size bits n))
