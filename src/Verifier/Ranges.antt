-- ===== src/Verifier/Ranges.antt =====
-- crates/merkle_tree/src/witness.rs: the normalization of a witness keeps the ranges of the machine
-- types and the next index.
use eravm_airbender_verifier.Common.{
  ℕ, zero, suc, ◌-◌, ◌≡◌, refl, sym, ap, List, [], ◌∷◌, ◌++◌, length, take, drop, ltb, ◌==◌, ok,
  inl, inr, Bool-cases, >>=-eq-ok, ensure-eq-ok, ok-injective, not_legacy_form,
}
use eravm_airbender_verifier.Tree.Types.{H256, tree_depth}
use eravm_airbender_verifier.Tree.Hasher.{HashTree}
use eravm_airbender_verifier.Tree.Blake2.{empty_subtree_prefix_len}
use eravm_airbender_verifier.Tree.Roots.{AreWords}
use eravm_airbender_verifier.Witness.Defs.{
  StorageLogMetadata, WitnessInputMerklePaths, with_path, check_lengths, splice_log, splice_logs,
  trim_path, decode_legacy, trim_logs, normalize_stored_paths,
}
use eravm_airbender_verifier.Verifier.Replay.{MetaInRange, MetasInRange}

AreWords-drop : (n : ℕ) (xs : List H256) → AreWords xs → AreWords (drop n xs)
AreWords-drop zero xs h = h
AreWords-drop (suc n) [] h = h
AreWords-drop (suc n) (x ∷ xs) (w, h) = AreWords-drop n xs h

AreWords-take : (n : ℕ) (xs : List H256) → AreWords xs → AreWords (take n xs)
AreWords-take zero xs h = tt
AreWords-take (suc n) [] h = h
AreWords-take (suc n) (x ∷ xs) (w, h) = (w, AreWords-take n xs h)

AreWords-append : (xs ys : List H256) → AreWords xs → AreWords ys → AreWords (xs ++ ys)
AreWords-append [] ys hx hy = hy
AreWords-append (x ∷ xs) ys (w, hx) hy = (w, AreWords-append xs ys hx hy)

with_path-InRange :
    (log : StorageLogMetadata) (path : List H256)
    → MetaInRange log
    → AreWords path
    → MetaInRange (with_path log path)
with_path-InRange log path h words = record {
  paths_AreWords = words;
  key_IsWord = h.key_IsWord;
  index_IsU64 = h.index_IsU64;
  value_IsWord = h.value_IsWord;
}

splice_log-InRange :
    (prefix : List H256) (from : ℕ) (log : StorageLogMetadata)
    → AreWords prefix
    → MetaInRange log
    → MetaInRange (splice_log prefix from log).0
unfolding splice_log
splice_log-InRange prefix from log words h =
    elim (Bool-cases (ltb from (tree_depth - length log.merkle_paths))) [
      | inl spliced ↦ rw spliced (
          with_path-InRange log _ h (
            AreWords-append _ log.merkle_paths (AreWords-take _ _ (AreWords-drop from prefix words))
              h.paths_AreWords))
      | inr kept ↦ rw kept h
    ]

splice_logs-InRange :
    (prefix : List H256) (from : ℕ) (logs : List StorageLogMetadata)
    → AreWords prefix
    → MetasInRange logs
    → MetasInRange (splice_logs prefix from logs).0
unfolding splice_logs
splice_logs-InRange prefix from [] words h = tt
splice_logs-InRange prefix from (log ∷ logs) words (h, hs) =
    (splice_log-InRange prefix from log words h, splice_logs-InRange prefix from logs words hs)

module _ (hasher : HashTree) where
  trim_logs-InRange :
      (logs : List StorageLogMetadata) → MetasInRange logs → MetasInRange (trim_logs hasher logs).0
  unfolding trim_logs trim_path
  trim_logs-InRange [] h = tt
  trim_logs-InRange (log ∷ logs) (h, hs) = (
    with_path-InRange log _ h (AreWords-drop _ log.merkle_paths h.paths_AreWords),
    trim_logs-InRange logs hs,
  )

  decode_legacy-InRange :
      (logs : List StorageLogMetadata) (decoded : List StorageLogMetadata × ℕ)
      → MetasInRange logs
      → decode_legacy hasher logs ≡ ok decoded
      → MetasInRange decoded.0
  unfolding decode_legacy
  decode_legacy-InRange [] decoded h e =
      let kept : ([], 0) ≡ decoded = ok-injective e in rw (← kept) tt
  decode_legacy-InRange (first ∷ rest) decoded (h, hs) e =
      elim (Bool-cases (length first.merkle_paths == tree_depth)) [
        | inl full ↦
            let from = empty_subtree_prefix_len hasher first.merkle_paths in
            let (_, same) = ensure-eq-ok (ltb 0 from) not_legacy_form _ (rw full at e) in
            let spliced = splice_logs first.merkle_paths from rest in
            let made : (first ∷ spliced.0, spliced.1) ≡ decoded = ok-injective same in
            rw (← made) (h, splice_logs-InRange first.merkle_paths from rest h.paths_AreWords hs)
        | inr short ↦
            let kept : (first ∷ rest, 0) ≡ decoded = ok-injective (rw short at e) in
            rw (← kept) (h, hs)
      ]

  -- A normalized witness is in range and keeps its next index.
  pub normalize-InRange :
      (witness : WitnessInputMerklePaths) (out : WitnessInputMerklePaths × (ℕ × ℕ))
      → MetasInRange witness.merkle_paths
      → normalize_stored_paths hasher witness ≡ ok out
      → MetasInRange out.0.merkle_paths
        × (out.0.next_enumeration_index ≡ witness.next_enumeration_index)
  unfolding normalize_stored_paths
  normalize-InRange witness out h e =
      let (u, _, e₁) = >>=-eq-ok (check_lengths witness.merkle_paths) _ e in
      let (decoded, made, e₂) = >>=-eq-ok (decode_legacy hasher witness.merkle_paths) _ e₁ in
      rw (← ok-injective e₂) (
        trim_logs-InRange decoded.0 (decode_legacy-InRange witness.merkle_paths decoded h made),
        refl,
      )

  pub normalize-index :
      (witness : WitnessInputMerklePaths) (out : WitnessInputMerklePaths × (ℕ × ℕ))
      → normalize_stored_paths hasher witness ≡ ok out
      → out.0.next_enumeration_index ≡ witness.next_enumeration_index
  unfolding normalize_stored_paths
  normalize-index witness out e =
      let (u, _, e₁) = >>=-eq-ok (check_lengths witness.merkle_paths) _ e in
      let (decoded, made, e₂) = >>=-eq-ok (decode_legacy hasher witness.merkle_paths) _ e₁ in
      sym (ap (λ o. o.0.next_enumeration_index) (ok-injective e₂))
