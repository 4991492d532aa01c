-- ===== src/Writes/Optimal.antt =====
-- crates/types/src/storage/writes/compression.rs: nothing shorter can be read back.
use native.Mathlib.Nat.{pow-le-pow_right}
use native.Mathlib.Decide.{ℕ_discrete}
use eravm_airbender_verifier.Common.{
  ℕ, suc, ◌-◌, ◌*◌, ◌/◌, ◌%◌, ◌^◌, ◌≡◌, ◌≤◌, ◌<◌, refl, ap, ◌∙◌, Bool-cases, inl, inr, Option, none,
  some, List, [], ◌∷◌, length, leb, ltb, take, drop, arith, length-drop, get_elem?, ◌⊎◌, false,
}
use eravm_airbender_verifier.Bytes.{be_bytes, be_value}
use eravm_airbender_verifier.Bytes.Values.{AreBytes, be_value-lt, length-be_bytes}
use eravm_airbender_verifier.Writes.Compression.{
  CompressionMode, byte_add, byte_sub, byte_transform, overflowing_sub, metadata_byte,
  default_passes, byte_size, compress_extended, compress_with_best_strategy,
}
use eravm_airbender_verifier.Writes.Decompression.{
  apply_operation, compressed_size, decompress, IsBitLength, pow_bytes,
}
use eravm_airbender_verifier.Writes.Roundtrip.{
  extended, compress_extended-byte_add, compress_extended-byte_sub,
  compress_extended-byte_transform,
}
use eravm_airbender_verifier.Writes.Shortest.{compress_with_best_strategy-shortest}
use eravm_airbender_verifier.Writes.Bounds.{compress_with_best_strategy-le}

-- What the reader took from bytes that it read to their end.
record IsRead (prev_value new_value metadata : ℕ) (bytes : List ℕ) : Type 0 where
  size_is : compressed_size metadata ≡ length bytes
  value_is : apply_operation (metadata % 8) prev_value (be_value bytes) ≡ new_value

value_of : Option (ℕ × List ℕ) → ℕ × List ℕ
value_of none = (0, [])
value_of (some r) = r

none-some : {r : ℕ × List ℕ} → none ≡ some r → ⊥
none-some e = cc

take_all : (xs : List ℕ) → take (length xs) xs ≡ xs
take_all [] = refl
take_all (x ∷ xs) = ap (λ ys. x ∷ ys) (take_all xs)

decompress-IsRead :
    (prev_value new_value metadata : ℕ) (bytes : List ℕ)
    → decompress prev_value (metadata ∷ bytes) ≡ some (new_value, [])
    → IsRead prev_value new_value metadata bytes
unfolding decompress value_of
decompress-IsRead prev_value new_value metadata bytes e =
    let size = compressed_size metadata in
    elim (Bool-cases (ltb (length bytes) size)) [
      | inl short ↦ absurd (none-some (rw (short, decompress) at e))
      | inr enough ↦
          let read = ap value_of (rw (enough, decompress) at e) in
          let left : length (drop size bytes) ≡ 0 = ap (λ (r : ℕ × List ℕ). length r.1) read in
          let le : size ≤ length bytes = ground arith in
          let size_is : size ≡ length bytes = omega (arith, left, le, length-drop size bytes) in
          let value : apply_operation (metadata % 8) prev_value (be_value (take size bytes))
              ≡ new_value =
            ap (λ (r : ℕ × List ℕ). r.0) read in
          let all : take size bytes ≡ bytes = rw size_is (take_all bytes) in
          record { size_is = size_is; value_is = rw all at value }
    ]

module _ (bits : ℕ → ℕ) (least : IsBitLength bits) where
  byte_size-least : (n size : ℕ) → n < 256 ^ size → byte_size bits n ≤ size
  unfolding byte_size
  byte_size-least n size h =
      omega (arith, least.least n (8 * size) (omega (arith, h, pow_bytes size)))

  -- A pass on a difference that fits `size` bytes gives so many bytes at most after the metadata.
  extended-fits :
      (id diff size : ℕ)
      → diff < 256 ^ size
      → size ≤ 30
      → (bytes : List ℕ) × (extended bits id diff ≡ some bytes) × (length bytes ≤ suc size)
  unfolding extended
  extended-fits id diff size small short =
      let n = byte_size bits diff in
      let le : n ≤ size = byte_size-least diff size small in
      let fits : leb 31 n ≡ false = ground arith in
      (
        metadata_byte n id ∷ drop (32 - n) (be_bytes 32 diff),
        rw fits refl,
        omega (arith, le, length-drop (32 - n) (be_bytes 32 diff), length-be_bytes 32 diff),
      )

  best-le :
      (prev_value new_value i id diff size : ℕ) (mode : CompressionMode)
      → get_elem? (default_passes prev_value new_value) i ≡ some mode
      → compress_extended bits mode ≡ extended bits id diff
      → diff < 256 ^ size
      → size ≤ 30
      → length (compress_with_best_strategy bits prev_value new_value) ≤ suc size
  best-le prev_value new_value i id diff size mode at is small short =
      let (bytes, gives, le) = extended-fits id diff size small short in
      omega (
        arith,
        le,
        compress_with_best_strategy-shortest bits prev_value new_value i mode bytes at (is ∙ gives),
      )

  fits_word : (diff size : ℕ) → diff < 256 ^ size → size ≤ 30 → diff < 2 ^ 256
  fits_word diff size small short =
      let grow : 2 ^ (8 * size) ≤ 2 ^ 256 = search (pow-le-pow_right, arith) in
      omega (arith, small, grow, pow_bytes size)

  -- The best strategy's bytes are not longer than any bytes that the format's reader reads back to the
  -- new value, up to their end: uncompressed ones, or ones whose metadata gives a size of 30 bytes at
  -- most, the greatest that the strategies use. The values are words, and `bits` counts no bits in
  -- excess.
  pub compress_with_best_strategy_least :
      (prev_value new_value metadata : ℕ) (bytes : List ℕ)
      → prev_value < 2 ^ 256
      → new_value < 2 ^ 256
      → AreBytes bytes
      → (metadata % 8 ≡ 0) ⊎ (metadata / 8 ≤ 30)
      → decompress prev_value (metadata ∷ bytes) ≡ some (new_value, [])
      → length (compress_with_best_strategy bits prev_value new_value) ≤ length (metadata ∷ bytes)
  unfolding default_passes overflowing_sub
  compress_with_best_strategy_least prev_value new_value metadata bytes prev_word new_word are
        format e =
      let read = decompress-IsRead prev_value new_value metadata bytes e in
      let diff = be_value bytes in
      let small : diff < 256 ^ length bytes = be_value-lt bytes are in
      let size = read.size_is in
      let value = read.value_is in
      elim (ℕ_discrete (metadata % 8) 0) [
        | yes none_used ↦
            let whole : length bytes ≡ 32 = ground arith in
            omega (arith, whole, compress_with_best_strategy-le bits prev_value new_value)
        | no used ↦
            let short : length bytes ≤ 30 = ground arith in
            let word : diff < 2 ^ 256 = fits_word diff (length bytes) small short in
            elim (ℕ_discrete (metadata % 8) 1) [
              | yes added ↦
                  let is : overflowing_sub new_value prev_value ≡ diff = ground arith in
                  best-le prev_value new_value 0 1 diff (length bytes)
                    (byte_add prev_value new_value) refl
                    (compress_extended-byte_add bits prev_value new_value ∙ ap (extended bits 1) is)
                    small short
              | no not_added ↦ elim (ℕ_discrete (metadata % 8) 2) [
                | yes subtracted ↦
                    let is : overflowing_sub prev_value new_value ≡ diff = ground arith in
                    best-le prev_value new_value 1 2 diff (length bytes)
                      (byte_sub prev_value new_value) refl
                      (compress_extended-byte_sub bits prev_value new_value
                        ∙ ap (extended bits 2) is)
                      small short
                | no not_subtracted ↦
                    let is : new_value ≡ diff = ground arith in
                    best-le prev_value new_value 2 3 diff (length bytes) (byte_transform new_value)
                      refl
                      (compress_extended-byte_transform bits new_value ∙ ap (extended bits 3) is)
                      small short
              ]
            ]
      ]
