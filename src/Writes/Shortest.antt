-- ===== src/Writes/Shortest.antt =====
-- crates/types/src/storage/writes/compression.rs: the best strategy is the shortest.
use eravm_airbender_verifier.Common.{
  ℕ, zero, suc, ◌≡◌, ◌≤◌, Option, none, some, List, [], ◌∷◌, length, get_elem?, arith, Option-cases,
  inl, inr,
}
use eravm_airbender_verifier.Writes.Compression.{
  CompressionMode, compress_extended, filter_compressed, shortest, shorter, default_passes,
  compress_with_best_strategy,
}

shorter-le_left : (bytes : List ℕ) (o : Option (List ℕ)) → length (shorter bytes o) ≤ length bytes
shorter-le_left bytes none = omega arith
shorter-le_left bytes (some best) = ground arith

shorter-le_right : (bytes best : List ℕ) → length (shorter bytes (some best)) ≤ length best
shorter-le_right bytes best = ground arith

-- One mode of the list can compress, so the shortest is there and not longer.
shortest-le :
    (bits : ℕ → ℕ) (modes : List CompressionMode) (i : ℕ) (mode : CompressionMode) (bytes : List ℕ)
    → get_elem? modes i ≡ some mode
    → compress_extended bits mode ≡ some bytes
    → (best : List ℕ) × (shortest (filter_compressed bits modes) ≡ some best)
      × (length best ≤ length bytes)
unfolding shortest filter_compressed
shortest-le bits [] i mode bytes at e = absurd cc
shortest-le bits (m ∷ modes) zero mode bytes at e =
    let rest = shortest (filter_compressed bits modes) in
    let here : compress_extended bits m ≡ some bytes = cc in
    (shorter bytes rest, rw here, shorter-le_left bytes rest)
shortest-le bits (m ∷ modes) (suc i) mode bytes at e =
    let (best, found, le) = shortest-le bits modes i mode bytes at e in
    elim (Option-cases (compress_extended bits m)) [
      | inl none_here ↦ (best, rw (none_here, found), le)
      | inr (here, some_here) ↦ (
        shorter here (some best),
        rw (some_here, found),
        omega (arith, le, shorter-le_right here best),
      )
    ]

-- No strategy that can compress a value is shorter than the best one.
pub compress_with_best_strategy-shortest :
    (bits : ℕ → ℕ) (prev_value new_value i : ℕ) (mode : CompressionMode) (bytes : List ℕ)
    → get_elem? (default_passes prev_value new_value) i ≡ some mode
    → compress_extended bits mode ≡ some bytes
    → length (compress_with_best_strategy bits prev_value new_value) ≤ length bytes
unfolding compress_with_best_strategy
compress_with_best_strategy-shortest bits prev_value new_value i mode bytes at e =
    let (best, found, le) =
      shortest-le bits (default_passes prev_value new_value) i mode bytes at e in
    rw found le
