-- ===== src/Writes/Diffs.antt =====
-- crates/types/src/storage/writes/mod.rs: state diff records and the pubdata they are packed into.
use eravm_airbender_verifier.Common.{
  ℕ, ◌-◌, ◌%◌, ◌^◌, Bool, ◌&&◌, ◌||◌, Option, none, some, List, [], ◌∷◌, ◌++◌, length, leb, ltb,
  ◌==◌, if◌then◌else◌, take, drop, replicate, Outcome, ok, panic, assert, ◌>>=◌, ◌>>◌,
  enumeration_index_too_large, too_many_initial_writes, compressed_length_overflow,
}
use eravm_airbender_verifier.Bytes.{be_bytes, be_value}
use eravm_airbender_verifier.Writes.Compression.{
  compression_version_number, compress_with_best_strategy,
}

unfoldable pub bytes_per_enumeration_index : ℕ
bytes_per_enumeration_index = 4

-- The address, the numbers and the values are numbers; the derived key is its bytes.
pub record StateDiffRecord : Type 0 where
  pub address : ℕ
  pub key : ℕ
  pub derived_key : List ℕ
  pub enumeration_index : ℕ
  pub initial_value : ℕ
  pub final_value : ℕ

unfoldable pub encode : StateDiffRecord → List ℕ
encode r =
    be_bytes 20 r.address
    ++ (be_bytes 32 r.key
        ++ (r.derived_key
            ++ (be_bytes 8 r.enumeration_index
                ++ (be_bytes 32 r.initial_value ++ be_bytes 32 r.final_value))))

unfoldable pub encode_padded : StateDiffRecord → List ℕ
unfolding encode
encode_padded r = encode r ++ replicate (272 - length (encode r)) 0

-- `data[from..to]`
abbrev pub slice : ℕ → ℕ → List ℕ → List ℕ
slice from to bytes = take (to - from) (drop from bytes)

unfoldable pub try_from_slice : List ℕ → Option StateDiffRecord
try_from_slice bytes =
    if length bytes == 156
    then some (record {
      address = be_value (slice 0 20 bytes);
      key = be_value (slice 20 52 bytes);
      derived_key = slice 52 84 bytes;
      enumeration_index = be_value (slice 84 92 bytes);
      initial_value = be_value (slice 92 124 bytes);
      final_value = be_value (slice 124 156 bytes);
    })
    else none

unfoldable pub is_write_initial : StateDiffRecord → Bool
is_write_initial r = r.enumeration_index == 0

-- The order of `(address, key)`.
unfoldable pub key_leb : StateDiffRecord → StateDiffRecord → Bool
key_leb r s = ltb r.address s.address || (r.address == s.address && leb r.key s.key)

-- `sort_by_key` is stable: a record goes before the first that is not below it.
unfoldable pub insert_sorted : StateDiffRecord → List StateDiffRecord → List StateDiffRecord
unfolding key_leb
insert_sorted r [] = r ∷ []
insert_sorted r (s ∷ rest) =
    let later = s ∷ insert_sorted r rest in if key_leb r s then r ∷ s ∷ rest else later

unfoldable pub sort_by_key : List StateDiffRecord → List StateDiffRecord
unfolding insert_sorted
sort_by_key [] = []
sort_by_key (r ∷ rest) = insert_sorted r (sort_by_key rest)

-- The two halves of `partition`.
unfoldable pub initial_writes : List StateDiffRecord → List StateDiffRecord
unfolding is_write_initial
initial_writes [] = []
initial_writes (r ∷ rest) =
    let others = initial_writes rest in if is_write_initial r then r ∷ others else others

unfoldable pub repeated_writes : List StateDiffRecord → List StateDiffRecord
unfolding is_write_initial
repeated_writes [] = []
repeated_writes (r ∷ rest) =
    let others = repeated_writes rest in if is_write_initial r then others else r ∷ others

-- `copy_from_slice(&compressed_len.to_be_bytes()[1..4])` after the length's check
unfoldable pub prepend_header : List ℕ → Outcome (List ℕ)
unfolding compression_version_number bytes_per_enumeration_index
prepend_header compressed_state_diffs = do
  let compressed_len = length compressed_state_diffs
  assert (leb compressed_len 16777215) compressed_length_overflow
  ok (
      compression_version_number ∷ drop 1 (be_bytes 4 compressed_len)
      ++ bytes_per_enumeration_index ∷ compressed_state_diffs)

module _ (bits : ℕ → ℕ) where
  -- The key of a compressed write: the derived key, or the index in four bytes.
  unfoldable pub compressed_key : StateDiffRecord → Outcome (List ℕ)
  compressed_key r =
      if r.enumeration_index == 0
      then ok r.derived_key
      else (if leb r.enumeration_index (2 ^ 32 - 1)
          then ok (be_bytes 4 (r.enumeration_index % 2 ^ 32))
          else panic enumeration_index_too_large)

  unfoldable pub compress : StateDiffRecord → Outcome (List ℕ)
  unfolding compressed_key
  compress r = do
    comp_state_diff ← compressed_key r
    ok (comp_state_diff ++ compress_with_best_strategy bits r.initial_value r.final_value)

  unfoldable pub compress_all : List StateDiffRecord → Outcome (List ℕ)
  unfolding compress
  compress_all [] = ok []
  compress_all (r ∷ rest) = do
    compressed ← compress r
    others ← compress_all rest
    ok (compressed ++ others)

  unfoldable pub compress_state_diffs : List StateDiffRecord → Outcome (List ℕ)
  unfolding sort_by_key initial_writes repeated_writes compress_all prepend_header
  compress_state_diffs state_diffs = do
    let sorted = sort_by_key state_diffs
    let num_initial_writes = length (initial_writes sorted)
    assert (leb num_initial_writes 65535) too_many_initial_writes
    initial ← compress_all (initial_writes sorted)
    repeated ← compress_all (repeated_writes sorted)
    prepend_header (be_bytes 2 num_initial_writes ++ (initial ++ repeated))
