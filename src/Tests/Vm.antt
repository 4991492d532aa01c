-- ===== src/Tests/Vm.antt =====
-- Compressed writes, the deduplicator and the storage view at concrete inputs.
use native.Mathlib.Nat.{pow-suc}
use eravm_airbender_verifier.Common.{
  ℕ, zero, suc, ◌/◌, ◌==◌, ◌^◌, ◌≡◌, ◌≤◌, ◌<◌, inl, inr, refl, false, none, some, List, [], ◌∷◌,
  ◌++◌, ok, arith, length, replicate, ltb, if◌then◌else◌, Bool-cases, ltb→lt, ◌⊎◌, ◌≢◌, ◌-◌, panic,
  enumeration_index_too_large,
}
use eravm_airbender_verifier.Writes.Compression.{compress_with_best_strategy}
use eravm_airbender_verifier.Bytes.{be_value}
use eravm_airbender_verifier.Writes.Decompression.{IsBits, IsBitLength, decompress}
use eravm_airbender_verifier.Writes.Roundtrip.{decompress-compress_with_best_strategy}
use eravm_airbender_verifier.Writes.Optimal.{compress_with_best_strategy_least}
use eravm_airbender_verifier.Writes.Diffs.{StateDiffRecord, encode, try_from_slice, compress}
use eravm_airbender_verifier.Writes.Bounds.{length-compress}
use eravm_airbender_verifier.Writes.Record.{try_from_slice-encode}
use eravm_airbender_verifier.Storage.Log.{
  StorageKey, StorageLogKind, initial_write, repeated_write, StorageLogWithPreviousValue,
}
use eravm_airbender_verifier.Vm.Dedup.{
  new_deduplicator, apply, make_snapshot, rollback_to_latest_snapshot_popping, apply_and_rollback,
}
use eravm_airbender_verifier.Vm.Undo.{MetricsInRange}
use eravm_airbender_verifier.Vm.Snapshots.{
  restored, apply_batches, rollback-make_snapshot, apply_and_rollback_lem,
}
use eravm_airbender_verifier.Vm.Storage.{ReadStorage, new_view}
use eravm_airbender_verifier.Vm.Cache.{
  Operation, read_value, read_committed, is_write_initial, set_value_to, run_view, run_memory,
  run_view-new_view,
}

-- A bit length in steps: enough for a byte, or for a word.
abbrev bits : ℕ → ℕ
bits n = if ltb n 256 then 8 else 256

bits-IsBits : IsBits bits
bits-IsBits = record { below = below }
  where
    below : (n : ℕ) → n < 2 ^ 256 → n < 2 ^ bits n
    below n h = elim (Bool-cases (ltb n 256)) [
      | inl small ↦ rw small (ltb→lt n 256 small)
      | inr large ↦ rw large h
    ]

decompress-compress_with_best_strategy_example :
    decompress 10 (compress_with_best_strategy bits 10 7 ++ 1 ∷ 2 ∷ []) ≡ some (7, 1 ∷ 2 ∷ [])
decompress-compress_with_best_strategy_example =
    decompress-compress_with_best_strategy bits bits-IsBits 10 7 (omega arith) (omega arith)
      (1 ∷ 2 ∷ [])

-- The bit length of a word, by halving.
halvings : ℕ → ℕ → ℕ
halvings zero n = 0
halvings (suc fuel) n = let rest = halvings fuel (n / 2) in if n == 0 then 0 else suc rest

abbrev exact_bits : ℕ → ℕ
exact_bits n = halvings 256 n

halvings-le : (fuel n k : ℕ) → n < 2 ^ k → halvings fuel n ≤ k
unfolding halvings
halvings-le zero n k h = omega arith
halvings-le (suc fuel) n zero h = ground arith
halvings-le (suc fuel) n (suc k) h =
    let rest = halvings-le fuel (n / 2) k (omega (arith, h, pow-suc 2 k)) in ground arith

bits-IsBitLength : IsBitLength exact_bits
bits-IsBitLength = record { least = halvings-le 256 }

reads : decompress 10 (9 ∷ 5 ∷ []) ≡ some (15, [])
unfolding decompress be_value
reads = refl

-- The reader takes 15 from one byte of difference to 10.
compress_with_best_strategy_least_example :
    length (compress_with_best_strategy exact_bits 10 15) ≤ length {A = ℕ} (9 ∷ 5 ∷ [])
compress_with_best_strategy_least_example =
    compress_with_best_strategy_least exact_bits bits-IsBitLength 10 15 9 (5 ∷ []) (omega arith)
      (omega arith) (omega arith, tt) (inr (omega arith)) reads

abbrev diff : StateDiffRecord
diff = record {
  address = 3;
  key = 4;
  derived_key = replicate 32 1;
  enumeration_index = 5;
  initial_value = 6;
  final_value = 7;
}

try_from_slice-encode_example : try_from_slice (encode diff) ≡ some diff
try_from_slice-encode_example = try_from_slice-encode diff (record {
  address_160 = omega arith;
  key_256 = omega arith;
  derived_32 = refl;
  index_64 = omega arith;
  initial_256 = omega arith;
  final_256 = omega arith;
})

abbrev key : StorageKey
key = record { address = 1; key = 2 }

abbrev write_of : StorageLogKind → ℕ → StorageLogWithPreviousValue
write_of kind value = record {
  log = record { kind = kind; key = key; value = value };
  previous_value = 4;
}

-- Three writes of one slot: a change, another change, and the value from before.
abbrev batches : List (List StorageLogWithPreviousValue)
batches =
    (write_of initial_write 5 ∷ write_of repeated_write 6 ∷ [])
    ∷ (write_of repeated_write 4 ∷ [])
    ∷ []

new_metrics : MetricsInRange new_deduplicator.metrics
unfolding new_deduplicator
new_metrics = record {
  initial_IsUsize = omega arith;
  repeated_IsUsize = omega arith;
  size_IsUsize = omega arith;
}

rollback-make_snapshot_example :
    rollback_to_latest_snapshot_popping
      (apply_batches bits (make_snapshot new_deduplicator) batches)
    ≡ ok (restored new_deduplicator (apply_batches bits (make_snapshot new_deduplicator) batches))
rollback-make_snapshot_example = rollback-make_snapshot bits new_deduplicator batches new_metrics

apply_and_rollback_lem_example :
    apply_and_rollback bits new_deduplicator (write_of initial_write 5 ∷ [])
    ≡ ok (
      restored new_deduplicator (apply bits new_deduplicator (write_of initial_write 5 ∷ [])),
      (apply bits new_deduplicator (write_of initial_write 5 ∷ [])).metrics,
    )
apply_and_rollback_lem_example =
    apply_and_rollback_lem bits new_deduplicator (write_of initial_write 5 ∷ []) new_metrics

-- A storage that holds 9 everywhere.
abbrev nines : ReadStorage
nines = record {
  read_value = λ key. ok 9;
  is_write_initial = λ key. ok false;
  get_enumeration_index = λ key. ok (some 1);
}

abbrev operations : List Operation
operations =
    read_value key
    ∷ set_value_to key 3
    ∷ read_value key
    ∷ read_committed key
    ∷ is_write_initial key
    ∷ []

run_view-new_view_example :
    run_view nines new_view operations ≡ run_memory nines (λ k. none) operations
run_view-new_view_example = run_view-new_view nines operations

length-compress_example :
    ((diff.enumeration_index ≡ 0)
      × ((bytes : List ℕ) × (compress bits diff ≡ ok bytes) × (length bytes ≤ 65)))
    ⊎ (((diff.enumeration_index ≢ 0)
          × (diff.enumeration_index ≤ 2 ^ 32 - 1)
          × ((bytes : List ℕ) × (compress bits diff ≡ ok bytes) × (length bytes ≤ 37)))
        ⊎ ((2 ^ 32 - 1 < diff.enumeration_index)
            × (compress bits diff ≡ panic enumeration_index_too_large)))
length-compress_example = length-compress bits diff refl
