-- ===== src/Writes/Roundtrip.antt =====
-- crates/types/src/storage/writes/compression.rs: the best strategy loses nothing.
use eravm_airbender_verifier.Common.{
  ℕ, ◌-◌, ◌%◌, ◌^◌, ◌≡◌, ◌≤◌, ◌<◌, refl, sym, ◌∙◌, Option, none, some, List, [], ◌∷◌, ◌++◌, length,
  leb, if◌then◌else◌, drop, arith, inl, inr, ◌≢◌, length-drop, Bool-cases,
}
use eravm_airbender_verifier.Bytes.{be_bytes}
use eravm_airbender_verifier.Bytes.Values.{be_value-be_bytes, length-be_bytes}
use eravm_airbender_verifier.Writes.Decompression.{
  apply_operation, compressed_size, decompress, Decodes, IsBits, decompress-framed, diff_bytes,
  byte_size-below,
}
use eravm_airbender_verifier.Writes.Compression.{
  byte_add, byte_sub, byte_transform, operation_id, overflowing_sub, metadata_byte, shortest,
  default_passes, byte_size, get_diff_and_size, output_size, compress_value_only, compress_extended,
  filter_compressed, compress_with_best_strategy, unwrap_or, sized, shorter, cons_some,
}

metadata_byte-size :
    (size id : ℕ) → size ≤ 30 → id ≢ 0 → id ≤ 3 → compressed_size (metadata_byte size id) ≡ size
unfolding metadata_byte
metadata_byte-size size id short some_id three = ground arith

-- Nothing, or bytes that stand for the new value.
abbrev OptionDecodes : ℕ → ℕ → Option (List ℕ) → Type 0
OptionDecodes prev_value new_value none = Unit
OptionDecodes prev_value new_value (some bytes) = Decodes prev_value new_value bytes

abbrev AllDecode : ℕ → ℕ → List (List ℕ) → Type 0
AllDecode prev_value new_value [] = Unit
AllDecode prev_value new_value (bytes ∷ rest) =
    Decodes prev_value new_value bytes × AllDecode prev_value new_value rest

cons_some-AllDecode :
    (prev_value new_value : ℕ) (o : Option (List ℕ)) (rest : List (List ℕ))
    → OptionDecodes prev_value new_value o
    → AllDecode prev_value new_value rest
    → AllDecode prev_value new_value (cons_some o rest)
cons_some-AllDecode prev_value new_value none rest d all = all
cons_some-AllDecode prev_value new_value (some bytes) rest d all = (d, all)

shortest-OptionDecodes :
    (prev_value new_value : ℕ) (all : List (List ℕ))
    → AllDecode prev_value new_value all
    → OptionDecodes prev_value new_value (shortest all)
unfolding shortest
shortest-OptionDecodes prev_value new_value [] d = tt
shortest-OptionDecodes prev_value new_value (bytes ∷ rest) (d, ds) =
    shorter_decodes (shortest rest) (shortest-OptionDecodes prev_value new_value rest ds)
  where
    shorter_decodes :
        (o : Option (List ℕ))
        → OptionDecodes prev_value new_value o
        → Decodes prev_value new_value (shorter bytes o)
    shorter_decodes none _ = d
    shorter_decodes (some best) h = elim (Bool-cases (leb (length bytes) (length best))) [
      | inl e ↦ rw e d
      | inr e ↦ rw e h
    ]

unwrap_or-Decodes :
    (prev_value new_value : ℕ) (o : Option (List ℕ))
    → new_value < 2 ^ 256
    → OptionDecodes prev_value new_value o
    → Decodes prev_value new_value (unwrap_or (0 ∷ be_bytes 32 new_value) o)
unwrap_or-Decodes prev_value new_value none word d = λ rest.
    decompress-framed prev_value 0 (be_bytes 32 new_value) rest (sym (length-be_bytes 32 new_value))
    ∙ rw (be_value-be_bytes 32 new_value word)
unwrap_or-Decodes prev_value new_value (some bytes) word d = d

module _ (bits : ℕ → ℕ) where
  -- What the three passes have in common.
  unfoldable pub extended : ℕ → ℕ → Option (List ℕ)
  extended id diff =
      if leb 31 (byte_size bits diff)
      then none
      else some (
          metadata_byte (byte_size bits diff) id
          ∷ drop (32 - byte_size bits diff) (be_bytes 32 diff))

  pub compress_extended-byte_add :
      (prev_value new_value : ℕ)
      → compress_extended bits (byte_add prev_value new_value)
        ≡ extended 1 (overflowing_sub new_value prev_value)
  unfolding compress_extended compress_value_only output_size get_diff_and_size operation_id sized
      extended
  compress_extended-byte_add prev_value new_value =
      elim (Bool-cases (leb 31 (byte_size bits (overflowing_sub new_value prev_value)))) [
        | inl e ↦ rw e
        | inr e ↦ rw e
      ]

  pub compress_extended-byte_sub :
      (prev_value new_value : ℕ)
      → compress_extended bits (byte_sub prev_value new_value)
        ≡ extended 2 (overflowing_sub prev_value new_value)
  unfolding compress_extended compress_value_only output_size get_diff_and_size operation_id sized
      extended
  compress_extended-byte_sub prev_value new_value =
      elim (Bool-cases (leb 31 (byte_size bits (overflowing_sub prev_value new_value)))) [
        | inl e ↦ rw e
        | inr e ↦ rw e
      ]

  pub compress_extended-byte_transform :
      (new_value : ℕ) → compress_extended bits (byte_transform new_value) ≡ extended 3 new_value
  unfolding compress_extended compress_value_only output_size get_diff_and_size operation_id sized
      extended
  compress_extended-byte_transform new_value =
      elim (Bool-cases (leb 31 (byte_size bits new_value))) [ inl e ↦ rw e | inr e ↦ rw e ]

module _ (bits : ℕ → ℕ) (laws : IsBits bits) where
  extended-OptionDecodes :
      (id diff prev_value new_value : ℕ)
      → id ≢ 0
      → id ≤ 3
      → diff < 2 ^ 256
      → apply_operation id prev_value diff ≡ new_value
      → OptionDecodes prev_value new_value (extended bits id diff)
  unfolding extended metadata_byte
  extended-OptionDecodes id diff prev_value new_value some_id three word applies =
      elim (Bool-cases (leb 31 (byte_size bits diff))) [
        | inl e ↦ rw e tt
        | inr e ↦
            let size = byte_size bits diff in
            let short : size ≤ 30 = ground arith in
            let bytes = drop (32 - size) (be_bytes 32 diff) in
            let meta = metadata_byte size id in
            let measured : length bytes ≡ size =
              omega (arith, length-drop (32 - size) (be_bytes 32 diff), length-be_bytes 32 diff) in
            let is_id : meta % 8 ≡ id = omega arith in
            let is_size : compressed_size meta ≡ length bytes =
              metadata_byte-size size id short some_id three ∙ sym measured in
            rw e (λ rest.
              decompress-framed prev_value meta bytes rest is_size
              ∙ rw (
                is_id,
                diff_bytes diff size short (byte_size-below bits laws diff word),
                applies,
              ))
      ]

  -- A storage value compressed by the best strategy is read back from the bytes and the previous
  -- value, and the reader stops where the compressed value ends, whatever follows it. The values are
  -- 256-bit words and `bits` is their bit length.
  pub decompress-compress_with_best_strategy :
      (prev_value new_value : ℕ)
      → prev_value < 2 ^ 256
      → new_value < 2 ^ 256
      → (rest : List ℕ)
      → decompress prev_value (compress_with_best_strategy bits prev_value new_value ++ rest)
        ≡ some (new_value, rest)
  unfolding compress_with_best_strategy filter_compressed default_passes overflowing_sub
  decompress-compress_with_best_strategy prev_value new_value prev_word new_word =
      let add : OptionDecodes prev_value new_value
          (compress_extended bits (byte_add prev_value new_value)) =
        rw (compress_extended-byte_add bits prev_value new_value) (
          extended-OptionDecodes 1 (overflowing_sub new_value prev_value) prev_value new_value
            (omega arith) (omega arith) (omega arith) (omega arith)) in
      let sub : OptionDecodes prev_value new_value
          (compress_extended bits (byte_sub prev_value new_value)) =
        rw (compress_extended-byte_sub bits prev_value new_value) (
          extended-OptionDecodes 2 (overflowing_sub prev_value new_value) prev_value new_value
            (omega arith) (omega arith) (omega arith) (omega arith)) in
      let transform : OptionDecodes prev_value new_value
          (compress_extended bits (byte_transform new_value)) =
        rw (compress_extended-byte_transform bits new_value) (
          extended-OptionDecodes 3 new_value prev_value new_value (omega arith) (omega arith)
            new_word refl) in
      unwrap_or-Decodes prev_value new_value
        (shortest (filter_compressed bits (default_passes prev_value new_value))) new_word
        (shortest-OptionDecodes prev_value new_value
          (filter_compressed bits (default_passes prev_value new_value))
          (cons_some-AllDecode prev_value new_value
            (compress_extended bits (byte_add prev_value new_value)) _ add
            (cons_some-AllDecode prev_value new_value
              (compress_extended bits (byte_sub prev_value new_value)) _ sub
              (cons_some-AllDecode prev_value new_value
                (compress_extended bits (byte_transform new_value)) _ transform tt))))
