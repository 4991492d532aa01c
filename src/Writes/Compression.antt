-- ===== src/Writes/Compression.antt =====
-- crates/types/src/storage/writes/compression.rs
use eravm_airbender_verifier.Common.{
  ℕ, ◌+◌, ◌-◌, ◌*◌, ◌/◌, ◌%◌, ◌^◌, Option, none, some, List, [], ◌∷◌, length, leb, if◌then◌else◌,
  drop,
}
use eravm_airbender_verifier.Bytes.{be_bytes}

unfoldable pub compression_version_number : ℕ
compression_version_number = 1

-- The implementors of the trait `CompressionMode`, with their fields.
pub data CompressionMode : Type 0 where
  byte_add byte_sub : (prev_value new_value : ℕ) → CompressionMode
  byte_transform byte_none : (new_value : ℕ) → CompressionMode

unfoldable pub operation_id : CompressionMode → ℕ
operation_id (byte_none new_value) = 0
operation_id (byte_add prev_value new_value) = 1
operation_id (byte_sub prev_value new_value) = 2
operation_id (byte_transform new_value) = 3

-- `U256::overflowing_sub`, of 256-bit words
unfoldable pub overflowing_sub : ℕ → ℕ → ℕ
overflowing_sub a b = ((a + 2 ^ 256) - b) % 2 ^ 256

-- Five bits of length over three bits of operation, which `|` joins; cast to a byte.
unfoldable pub metadata_byte : ℕ → ℕ → ℕ
metadata_byte output_size id = (output_size * 8 + id) % 256

abbrev pub map_option {ℓ κ} : {A : Type ℓ} {B : Type κ} → (A → B) → Option A → Option B
map_option f none = none
map_option f (some a) = some (f a)

abbrev pub shorter : List ℕ → Option (List ℕ) → List ℕ
shorter bytes none = bytes
shorter bytes (some best) = if leb (length bytes) (length best) then bytes else best

-- `min_by_key` on the length: of equally short ones the first.
unfoldable pub shortest : List (List ℕ) → Option (List ℕ)
shortest [] = none
shortest (bytes ∷ rest) = some (shorter bytes (shortest rest))

abbrev pub cons_some {ℓ} : {A : Type ℓ} → Option A → List A → List A
cons_some none rest = rest
cons_some (some a) rest = a ∷ rest

abbrev pub unwrap_or {ℓ} : {A : Type ℓ} → A → Option A → A
unwrap_or d none = d
unwrap_or d (some a) = a

unfoldable pub default_passes : ℕ → ℕ → List CompressionMode
default_passes prev_value new_value =
    byte_add prev_value new_value ∷ byte_sub prev_value new_value ∷ byte_transform new_value ∷ []

-- `bits` is the method of `U256`.
module _ (bits : ℕ → ℕ) where
  -- `bits().div_ceil(8)`
  unfoldable pub byte_size : ℕ → ℕ
  byte_size diff = (bits diff + 7) / 8

  unfoldable pub sized : ℕ → Option (ℕ × ℕ)
  sized diff = if leb 31 (byte_size diff) then none else some (diff, byte_size diff)

  unfoldable pub get_diff_and_size : CompressionMode → Option (ℕ × ℕ)
  unfolding sized byte_size overflowing_sub
  get_diff_and_size (byte_add prev_value new_value) = sized (overflowing_sub new_value prev_value)
  get_diff_and_size (byte_sub prev_value new_value) = sized (overflowing_sub prev_value new_value)
  get_diff_and_size (byte_transform new_value) = sized new_value
  get_diff_and_size (byte_none new_value) = none

  unfoldable pub output_size : CompressionMode → Option ℕ
  unfolding get_diff_and_size
  output_size (byte_none new_value) = some 32
  output_size mode = map_option (λ (d : ℕ × ℕ). d.1) (get_diff_and_size mode)

  unfoldable pub compress_value_only : CompressionMode → Option (List ℕ)
  unfolding get_diff_and_size
  compress_value_only (byte_none new_value) = some (be_bytes 32 new_value)
  compress_value_only mode =
      map_option (λ (d : ℕ × ℕ). drop (32 - d.1) (be_bytes 32 d.0)) (get_diff_and_size mode)

  unfoldable pub compress_extended : CompressionMode → Option (List ℕ)
  unfolding compress_value_only output_size metadata_byte operation_id
  compress_extended (byte_none new_value) = some (0 ∷ be_bytes 32 new_value)
  compress_extended mode =
      map_option
        (λ compressed.
          metadata_byte (unwrap_or 0 (output_size mode)) (operation_id mode) ∷ compressed)
        (compress_value_only mode)

  unfoldable pub filter_compressed : List CompressionMode → List (List ℕ)
  unfolding compress_extended
  filter_compressed [] = []
  filter_compressed (mode ∷ modes) = cons_some (compress_extended mode) (filter_compressed modes)

  unfoldable pub compress_with_best_strategy : ℕ → ℕ → List ℕ
  unfolding filter_compressed shortest default_passes
  compress_with_best_strategy prev_value new_value =
      unwrap_or (0 ∷ be_bytes 32 new_value)
        (shortest (filter_compressed (default_passes prev_value new_value)))
