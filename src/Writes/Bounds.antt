-- ===== src/Writes/Bounds.antt =====
-- crates/types/src/storage/writes: how long a compressed write can be.
use eravm_airbender_verifier.Common.{
  ℕ, ◌-◌, ◌^◌, ◌≡◌, ◌≢◌, ◌≤◌, ◌<◌, false, Option, none, some, List, [], ◌∷◌, ◌++◌, length, leb,
  length-drop, length-append, arith, Bool-cases, inl, inr, ◌⊎◌, ok, panic,
  enumeration_index_too_large, ==→eq, ==→ne, leb→le, ◌==◌, ◌%◌,
}
use eravm_airbender_verifier.Bytes.{be_bytes}
use eravm_airbender_verifier.Bytes.Values.{length-be_bytes}
use eravm_airbender_verifier.Writes.Compression.{
  byte_add, byte_sub, byte_transform, overflowing_sub, byte_size, compress_extended,
  filter_compressed, shortest, shorter, cons_some, unwrap_or, default_passes,
  compress_with_best_strategy,
}
use eravm_airbender_verifier.Writes.Roundtrip.{
  extended, compress_extended-byte_add, compress_extended-byte_sub,
  compress_extended-byte_transform,
}
use eravm_airbender_verifier.Writes.Diffs.{StateDiffRecord, compressed_key, compress}

leb→gt : (a b : ℕ) → leb a b ≡ false → b < a
leb→gt a b h = ground arith

abbrev IsShort : Option (List ℕ) → Type 0
IsShort none = Unit
IsShort (some bytes) = length bytes ≤ 33

abbrev AreAllShort : List (List ℕ) → Type 0
AreAllShort [] = Unit
AreAllShort (bytes ∷ rest) = (length bytes ≤ 33) × AreAllShort rest

cons_some-AreAllShort :
    (o : Option (List ℕ)) (rest : List (List ℕ))
    → IsShort o
    → AreAllShort rest
    → AreAllShort (cons_some o rest)
cons_some-AreAllShort none rest s all = all
cons_some-AreAllShort (some bytes) rest s all = (s, all)

shorter-le : (bytes : List ℕ) (o : Option (List ℕ)) → length (shorter bytes o) ≤ length bytes
shorter-le bytes none = omega arith
shorter-le bytes (some best) = ground arith

shortest-IsShort : (all : List (List ℕ)) → AreAllShort all → IsShort (shortest all)
unfolding shortest
shortest-IsShort [] s = tt
shortest-IsShort (bytes ∷ rest) (s, _) = omega (arith, s, shorter-le bytes (shortest rest))

extended-IsShort : (bits : ℕ → ℕ) (id diff : ℕ) → IsShort (extended bits id diff)
unfolding extended
extended-IsShort bits id diff = elim (Bool-cases (leb 31 (byte_size bits diff))) [
  | inl e ↦ rw e tt
  | inr e ↦ rw e (
      omega
        (arith, length-drop (32 - byte_size bits diff) (be_bytes 32 diff), length-be_bytes 32 diff))
]

unwrap_or-short :
    (new_value : ℕ) (o : Option (List ℕ))
    → IsShort o
    → length (unwrap_or (0 ∷ be_bytes 32 new_value) o) ≤ 33
unwrap_or-short new_value none s = omega (arith, length-be_bytes 32 new_value)
unwrap_or-short new_value (some bytes) s = s

module _ (bits : ℕ → ℕ) where
  pub compress_with_best_strategy-le :
      (prev_value new_value : ℕ)
      → length (compress_with_best_strategy bits prev_value new_value) ≤ 33
  unfolding compress_with_best_strategy filter_compressed default_passes
  compress_with_best_strategy-le prev_value new_value =
      let add : IsShort (compress_extended bits (byte_add prev_value new_value)) =
        rw (compress_extended-byte_add bits prev_value new_value)
          (extended-IsShort bits 1 (overflowing_sub new_value prev_value)) in
      let sub : IsShort (compress_extended bits (byte_sub prev_value new_value)) =
        rw (compress_extended-byte_sub bits prev_value new_value)
          (extended-IsShort bits 2 (overflowing_sub prev_value new_value)) in
      let transform : IsShort (compress_extended bits (byte_transform new_value)) =
        rw (compress_extended-byte_transform bits new_value) (extended-IsShort bits 3 new_value) in
      unwrap_or-short new_value
        (shortest (filter_compressed bits (default_passes prev_value new_value)))
        (shortest-IsShort (filter_compressed bits (default_passes prev_value new_value)) (
          cons_some-AreAllShort (compress_extended bits (byte_add prev_value new_value)) _ add (
            cons_some-AreAllShort (compress_extended bits (byte_sub prev_value new_value)) _ sub (
              cons_some-AreAllShort (compress_extended bits (byte_transform new_value)) _ transform
                tt))))

  -- A compressed record has at most 65 bytes where the write is initial, and at most 37 where it is
  -- repeated with an index that fits 32 bits; a greater index is the panic, and nothing else is. The
  -- derived key has 32 bytes.
  pub length-compress :
      (r : StateDiffRecord)
      → length r.derived_key ≡ 32
      → ((r.enumeration_index ≡ 0)
          × ((bytes : List ℕ) × (compress bits r ≡ ok bytes) × (length bytes ≤ 65)))
        ⊎ (((r.enumeration_index ≢ 0)
              × (r.enumeration_index ≤ 2 ^ 32 - 1)
              × ((bytes : List ℕ) × (compress bits r ≡ ok bytes) × (length bytes ≤ 37)))
            ⊎ ((2 ^ 32 - 1 < r.enumeration_index)
                × (compress bits r ≡ panic enumeration_index_too_large)))
  unfolding compress compressed_key
  length-compress r derived =
      let best = compress_with_best_strategy bits r.initial_value r.final_value in
      let short = compress_with_best_strategy-le r.initial_value r.final_value in
      let index = be_bytes 4 (r.enumeration_index % 2 ^ 32) in
      elim (Bool-cases (r.enumeration_index == 0)) [
        | inl initial ↦ inl (
          ==→eq _ _ initial,
          (
            r.derived_key ++ best,
            rw initial,
            omega (arith, derived, short, length-append r.derived_key best),
          ),
        )
        | inr repeated ↦ elim (Bool-cases (leb r.enumeration_index (2 ^ 32 - 1))) [
          | inl fits ↦ inr (
              inl (
                ==→ne _ _ repeated,
                leb→le _ _ fits,
                (
                  index ++ best,
                  rw (repeated, fits),
                  omega (
                    arith,
                    short,
                    length-append index best,
                    length-be_bytes 4 (r.enumeration_index % 2 ^ 32),
                  ),
                ),
              ))
          | inr large ↦ inr (inr (leb→gt _ _ large, rw (repeated, large)))
        ]
      ]
