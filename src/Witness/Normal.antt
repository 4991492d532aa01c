-- ===== src/Witness/Normal.antt =====
-- The form that `normalize_stored_paths` leaves, when it succeeds, and what it keeps.
use mathlib.Core.Path.{subst, ap₂}
use mathlib.Core.List.{map-append}
use eravm_airbender_verifier.Common.{
  ℕ, ◌-◌, ◌≡◌, ◌≤◌, ◌<◌, inl, inr, refl, sym, ap, ◌∙◌, false, List, [], ◌∷◌, ◌++◌, map, arith,
  length, take, drop, length-append, length-take, length-drop, ltb, ◌==◌, ok, Bool-cases, >>=-eq-ok,
  ok-injective, ensure-eq-ok, not_legacy_form,
}
use eravm_airbender_verifier.Tree.Types.{H256, tree_depth}
use eravm_airbender_verifier.Tree.Hasher.{HashTree, extend_merkle_path}
use eravm_airbender_verifier.Tree.Blake2.{empty_subtree_prefix_len}
use eravm_airbender_verifier.Tree.Trim.{extend_merkle_path-drop, empty_subtree_prefix_len-drop}
use eravm_airbender_verifier.Witness.Defs.{
  StorageLogMetadata, WitnessInputMerklePaths, is_legacy_first, is_legacy_delta_form, with_path,
  check_lengths, splice_logs, trim_path, push_merkle_path, decode_legacy, trim_logs,
  normalize_stored_paths, pad_log, into_merkle_paths,
}

abbrev pub AreShort : List StorageLogMetadata → Type 0
AreShort [] = Unit
AreShort (log ∷ logs) = (length log.merkle_paths ≤ tree_depth) × AreShort logs

pub check_lengths-AreShort :
    (logs : List StorageLogMetadata) → check_lengths logs ≡ ok tt → AreShort logs
unfolding check_lengths
check_lengths-AreShort [] e = tt
check_lengths-AreShort (log ∷ logs) e = (ground arith, check_lengths-AreShort logs (ground arith))

pub AreShort-check_lengths :
    (logs : List StorageLogMetadata) → AreShort logs → check_lengths logs ≡ ok tt
unfolding check_lengths
AreShort-check_lengths [] h = refl
AreShort-check_lengths (log ∷ logs) h = ground (arith, AreShort-check_lengths logs h.1)

splice_logs-AreShort :
    (prefix : List H256) (populated_from : ℕ) (logs : List StorageLogMetadata)
    → AreShort logs
    → AreShort (splice_logs prefix populated_from logs).0
unfolding splice_logs
splice_logs-AreShort prefix populated_from [] h = tt
splice_logs-AreShort prefix populated_from (log ∷ logs) h = (
  ground (
    arith,
    length-append
        (take (tree_depth - length log.merkle_paths - populated_from) (drop populated_from prefix))
        log.merkle_paths,
    length-take (tree_depth - length log.merkle_paths - populated_from)
        (drop populated_from prefix),
  ),
  splice_logs-AreShort prefix populated_from logs h.1,
)

module _ (hasher : HashTree) where
  -- Short paths without an empty prefix.
  abbrev pub AreCanonical : List StorageLogMetadata → Type 0
  AreCanonical [] = Unit
  AreCanonical (log ∷ logs) =
      (length log.merkle_paths ≤ tree_depth)
      × (empty_subtree_prefix_len hasher log.merkle_paths ≡ 0)
      × AreCanonical logs

  length-trim_path :
      (path : List H256)
      → length (trim_path hasher path) ≡ length path - empty_subtree_prefix_len hasher path
  unfolding trim_path
  length-trim_path path = length-drop _ path

  pub trim_logs-AreCanonical :
      (logs : List StorageLogMetadata) → AreShort logs → AreCanonical (trim_logs hasher logs).0
  unfolding trim_logs
  trim_logs-AreCanonical [] h = tt
  trim_logs-AreCanonical (log ∷ logs) h = (
    omega (arith, length-trim_path log.merkle_paths),
    empty_subtree_prefix_len-drop hasher log.merkle_paths,
    trim_logs-AreCanonical logs h.1,
  )

  pub trim_logs-canonical :
      (logs : List StorageLogMetadata) → AreCanonical logs → trim_logs hasher logs ≡ (logs, 0)
  unfolding trim_logs
  trim_logs-canonical [] h = refl
  trim_logs-canonical (log ∷ logs) h = rw (h.1, trim_logs-canonical logs h.2)

  -- The head is short of the full depth once it is trimmed.
  abbrev Shortens : List StorageLogMetadata → Type 0
  Shortens [] = Unit
  Shortens (first ∷ rest) = length (trim_path hasher first.merkle_paths) < tree_depth

  decode_legacy-ok :
      (logs : List StorageLogMetadata) (decoded : List StorageLogMetadata × ℕ)
      → AreShort logs
      → decode_legacy hasher logs ≡ ok decoded
      → AreShort decoded.0 × Shortens decoded.0
  unfolding decode_legacy
  decode_legacy-ok [] decoded h e =
      subst (λ d. AreShort d.0 × Shortens d.0) (ok-injective e) (tt, tt)
  decode_legacy-ok (first ∷ rest) decoded h e =
      let populated_from = empty_subtree_prefix_len hasher first.merkle_paths in
      elim (Bool-cases (length first.merkle_paths == tree_depth)) [
        | inl full ↦
            let spliced = splice_logs first.merkle_paths populated_from rest in
            let (padded, done) =
              ensure-eq-ok (ltb 0 populated_from) not_legacy_form
                (ok (first ∷ spliced.0, spliced.1)) (rw (full, decode_legacy) at e) in
            subst (λ d. AreShort d.0 × Shortens d.0) (ok-injective done)
              (
                (h.0, splice_logs-AreShort first.merkle_paths populated_from rest h.1),
                ground (arith, length-trim_path first.merkle_paths),
              )
        | inr short ↦
            subst (λ d. AreShort d.0 × Shortens d.0) (ok-injective (rw (short, decode_legacy) at e))
              (h, ground (arith, length-trim_path first.merkle_paths))
      ]

  trim_logs-not_legacy :
      (logs : List StorageLogMetadata)
      → Shortens logs
      → is_legacy_first (trim_logs hasher logs).0 ≡ false
  unfolding trim_logs
  trim_logs-not_legacy [] h = refl
  trim_logs-not_legacy (first ∷ rest) h = ground arith

  -- What a successful call returns.
  pub record IsNormal (witness : WitnessInputMerklePaths) : Type 0 where
    pub canonical : AreCanonical witness.merkle_paths
    pub per_path_form : is_legacy_delta_form witness ≡ false

  decoded_of :
      (witness : WitnessInputMerklePaths) (result : WitnessInputMerklePaths × (ℕ × ℕ))
      → normalize_stored_paths hasher witness ≡ ok result
      → (decoded : List StorageLogMetadata × ℕ) × (check_lengths witness.merkle_paths ≡ ok tt)
        × (decode_legacy hasher witness.merkle_paths ≡ ok decoded)
        × (result ≡ (
          record witness { merkle_paths = (trim_logs hasher decoded.0).0 },
          ((trim_logs hasher decoded.0).1, decoded.1),
        ))
  unfolding normalize_stored_paths
  decoded_of witness result e =
      let (_, checked, rest) = >>=-eq-ok (check_lengths witness.merkle_paths) _ e in
      let (decoded, decodes, done) = >>=-eq-ok (decode_legacy hasher witness.merkle_paths) _ rest in
      (decoded, checked, decodes, sym (ok-injective done))

  -- After a successful normalization every path is short and has no empty prefix, and entry 0 does
  -- not have the length that marks the legacy form; the next index is kept.
  pub normalize_stored_paths-IsNormal :
      (witness : WitnessInputMerklePaths) (result : WitnessInputMerklePaths × (ℕ × ℕ))
      → normalize_stored_paths hasher witness ≡ ok result
      → IsNormal result.0 × (result.0.next_enumeration_index ≡ witness.next_enumeration_index)
  unfolding is_legacy_delta_form
  normalize_stored_paths-IsNormal witness result e =
      let (decoded, checked, decodes, same) = decoded_of witness result e in
      let (short, shortens) =
        decode_legacy-ok witness.merkle_paths decoded
          (check_lengths-AreShort witness.merkle_paths checked) decodes in
      rw same (
        record {
          canonical = trim_logs-AreCanonical decoded.0 short;
          per_path_form = trim_logs-not_legacy decoded.0 shortens;
        },
        refl,
      )

  canonical_short : (logs : List StorageLogMetadata) → AreCanonical logs → AreShort logs
  canonical_short [] h = tt
  canonical_short (log ∷ logs) h = (h.0, canonical_short logs h.2)

  pub decode_legacy-per_path :
      (logs : List StorageLogMetadata)
      → is_legacy_first logs ≡ false
      → decode_legacy hasher logs ≡ ok (logs, 0)
  unfolding decode_legacy
  decode_legacy-per_path [] h = refl
  decode_legacy-per_path (first ∷ rest) h = rw h

  -- A witness in the per-path form with short paths normalizes, by trimming alone.
  pub normalize_stored_paths-per_path :
      (witness : WitnessInputMerklePaths)
      → AreShort witness.merkle_paths
      → is_legacy_delta_form witness ≡ false
      → normalize_stored_paths hasher witness
        ≡ ok (
          record witness { merkle_paths = (trim_logs hasher witness.merkle_paths).0 },
          ((trim_logs hasher witness.merkle_paths).1, 0),
        )
  unfolding normalize_stored_paths is_legacy_delta_form
  normalize_stored_paths-per_path witness short h = rw (
    AreShort-check_lengths witness.merkle_paths short,
    decode_legacy-per_path witness.merkle_paths h,
  )

  -- A second normalization changes nothing and counts nothing.
  pub normalize_stored_paths_idempotent :
      (witness : WitnessInputMerklePaths) (result : WitnessInputMerklePaths × (ℕ × ℕ))
      → normalize_stored_paths hasher witness ≡ ok result
      → normalize_stored_paths hasher result.0 ≡ ok (result.0, (0, 0))
  normalize_stored_paths_idempotent witness result e =
      let (normal, _) = normalize_stored_paths-IsNormal witness result e in
      let again =
        normalize_stored_paths-per_path result.0
          (canonical_short result.0.merkle_paths normal.canonical) normal.per_path_form in
      again ∙ rw (trim_logs-canonical result.0.merkle_paths normal.canonical)

  pad_log-trim :
      (log : StorageLogMetadata)
      → pad_log hasher (with_path log (trim_path hasher log.merkle_paths)) ≡ pad_log hasher log
  unfolding pad_log trim_path
  pad_log-trim log =
      ap (with_path log)
        (unfold extend_merkle_path in extend_merkle_path-drop hasher log.merkle_paths)

  pub pad_logs-trim :
      (logs : List StorageLogMetadata)
      → map (pad_log hasher) (trim_logs hasher logs).0 ≡ map (pad_log hasher) logs
  unfolding trim_logs
  pad_logs-trim [] = refl
  pad_logs-trim (log ∷ logs) = ap₂ ◌∷◌ (pad_log-trim log) (pad_logs-trim logs)

  -- On the per-path form normalization keeps every full path: the same entries, padded to the depth
  -- of the tree, come out of the witness before and after.
  pub into_merkle_paths-normalize :
      (witness : WitnessInputMerklePaths) (result : WitnessInputMerklePaths × (ℕ × ℕ))
      → is_legacy_delta_form witness ≡ false
      → normalize_stored_paths hasher witness ≡ ok result
      → into_merkle_paths hasher result.0 ≡ into_merkle_paths hasher witness
  unfolding into_merkle_paths is_legacy_delta_form
  into_merkle_paths-normalize witness result h e =
      let (decoded, checked, decodes, same) = decoded_of witness result e in
      let plain = ok-injective (sym decodes ∙ decode_legacy-per_path witness.merkle_paths h) in
      rw (same, plain) (pad_logs-trim witness.merkle_paths)

  -- Pushing a path, padded or truncated, adds exactly its full form, and changes no other entry.
  into_merkle_paths-push :
      (witness : WitnessInputMerklePaths) (log : StorageLogMetadata)
      → into_merkle_paths hasher (push_merkle_path hasher witness log)
        ≡ into_merkle_paths hasher witness ++ pad_log hasher log ∷ []
  unfolding into_merkle_paths push_merkle_path
  into_merkle_paths-push witness log = rw (map-append, pad_log-trim log)

  AreCanonical-append :
      (logs : List StorageLogMetadata) (log : StorageLogMetadata)
      → AreCanonical logs
      → AreCanonical (log ∷ [])
      → AreCanonical (logs ++ log ∷ [])
  AreCanonical-append [] log h l = l
  AreCanonical-append (first ∷ logs) log h l = (h.0, h.1, AreCanonical-append logs log h.2 l)

  -- A pushed path is stored without its empty prefix: where the stored paths are short and have none,
  -- they are and have none after it, the full forms are those from before with the full form of the
  -- pushed path at the end, and the next index is kept. The pushed path is not longer than the tree.
  pub push_merkle_path-AreCanonical :
      (witness : WitnessInputMerklePaths) (log : StorageLogMetadata)
      → AreCanonical witness.merkle_paths
      → length log.merkle_paths ≤ tree_depth
      → AreCanonical (push_merkle_path hasher witness log).merkle_paths
        × (into_merkle_paths hasher (push_merkle_path hasher witness log)
            ≡ into_merkle_paths hasher witness ++ pad_log hasher log ∷ [])
        × ((push_merkle_path hasher witness log).next_enumeration_index
            ≡ witness.next_enumeration_index)
  unfolding push_merkle_path trim_path
  push_merkle_path-AreCanonical witness log h short = (
    AreCanonical-append witness.merkle_paths _ h (
      omega (arith, length-trim_path log.merkle_paths),
      empty_subtree_prefix_len-drop hasher log.merkle_paths,
      tt,
    ),
    into_merkle_paths-push witness log,
    refl,
  )
