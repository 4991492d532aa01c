-- ===== src/Witness/Legacy.antt =====
-- The legacy delta form, which `normalize_stored_paths` decodes. Its encoder is not in the
-- repository: `legacy_encode` states what the comments of witness.rs say of it.
use native.Mathlib.Nat.{sub-zero}
use mathlib.Core.Path.{ap₂}
use eravm_airbender_verifier.Common.{
  ℕ, zero, suc, ◌-◌, ◌≡◌, ◌≤◌, ◌<◌, inl, inr, refl, ap, ◌∙◌, List, [], ◌∷◌, ◌++◌, map, min, arith,
  length, take, drop, length-drop, take-append-drop, ltb, ◌==◌, if◌then◌else◌, ok, Bool-cases,
  lt→ltb, ltb→lt, ltb→ge, eq→==,
}
use eravm_airbender_verifier.Tree.Types.{H256, tree_depth}
use eravm_airbender_verifier.Tree.Hasher.{HashTree, empty_hashes}
use eravm_airbender_verifier.Tree.Blake2.{empty_run, empty_subtree_prefix_len}
use eravm_airbender_verifier.Witness.Defs.{
  StorageLogMetadata, WitnessInputMerklePaths, with_path, splice_log, splice_logs, trim_logs,
  decode_legacy, normalize_stored_paths, pad_log, into_merkle_paths,
}
use eravm_airbender_verifier.Witness.Normal.{AreShort, AreShort-check_lengths, pad_logs-trim}

common_prefix_len : List H256 → List H256 → ℕ
common_prefix_len [] ys = 0
common_prefix_len (x ∷ xs) [] = 0
common_prefix_len (x ∷ xs) (y ∷ ys) = if x == y then suc (common_prefix_len xs ys) else 0

-- `padded_i[fui..]`, where `fui` is the length of the common prefix with the first path.
pub legacy_log : List H256 → StorageLogMetadata → StorageLogMetadata
legacy_log first log =
    with_path log (drop (common_prefix_len log.merkle_paths first) log.merkle_paths)

-- The first path is stored whole.
pub legacy_encode : StorageLogMetadata → List StorageLogMetadata → List StorageLogMetadata
legacy_encode first rest = first ∷ map (legacy_log first.merkle_paths) rest

abbrev pub AreFull : List StorageLogMetadata → Type 0
AreFull [] = Unit
AreFull (log ∷ logs) = (length log.merkle_paths ≡ tree_depth) × AreFull logs

common_prefix_len-le : (xs ys : List H256) → common_prefix_len xs ys ≤ length xs
unfolding common_prefix_len
common_prefix_len-le [] ys = omega arith
common_prefix_len-le (x ∷ xs) [] = omega arith
common_prefix_len-le (x ∷ xs) (y ∷ ys) = ground (arith, common_prefix_len-le xs ys)

take_common : (n : ℕ) (xs ys : List H256) → n ≤ common_prefix_len xs ys → take n ys ≡ take n xs
unfolding common_prefix_len
take_common zero xs ys h = refl
take_common (suc n) [] ys h = absurd (omega arith)
take_common (suc n) (x ∷ xs) [] h = absurd (omega arith)
take_common (suc n) (x ∷ xs) (y ∷ ys) h = ground (arith, take_common n xs ys)

rejoin :
    (p c : ℕ) (xs ys : List H256)
    → p ≤ c
    → c ≤ common_prefix_len xs ys
    → take (c - p) (drop p ys) ++ drop c xs ≡ drop p xs
unfolding common_prefix_len
rejoin zero c xs ys h k = rw (sub-zero, take_common c xs ys k) (take-append-drop c xs)
rejoin (suc p) zero xs ys h k = absurd (omega arith)
rejoin (suc p) (suc c) [] ys h k = absurd (omega arith)
rejoin (suc p) (suc c) (x ∷ xs) [] h k = absurd (omega arith)
rejoin (suc p) (suc c) (x ∷ xs) (y ∷ ys) h k =
    let e : suc c - suc p ≡ c - p = omega arith in
    rw e (rejoin p c xs ys (omega arith) (ground arith))

module _ (hasher : HashTree) where
  take_run :
      (n depth : ℕ) (path : List H256)
      → n ≤ empty_run hasher depth path
      → empty_hashes hasher depth n ≡ take n path
  unfolding empty_run empty_hashes
  take_run zero depth path h = refl
  take_run (suc n) depth [] h = absurd (omega arith)
  take_run (suc n) depth (hash ∷ rest) h = ground (arith, take_run n (suc depth) rest)

  empty_run-full :
      (path : List H256)
      → length path ≡ tree_depth
      → empty_subtree_prefix_len hasher path ≡ empty_run hasher 0 path
  unfolding empty_subtree_prefix_len
  empty_run-full path h = rw h

  -- What the splice makes of a stored legacy entry.
  splice_log-legacy :
      (first : List H256) (log : StorageLogMetadata)
      → length log.merkle_paths ≡ tree_depth
      → (splice_log first (empty_subtree_prefix_len hasher first) (legacy_log first log)).0
        ≡ with_path log (
            drop
              (min
                (empty_subtree_prefix_len hasher first)
                (common_prefix_len log.merkle_paths first))
              log.merkle_paths)
  unfolding splice_log legacy_log
  splice_log-legacy first log h =
      let p = empty_subtree_prefix_len hasher first in
      let c = common_prefix_len log.merkle_paths first in
      let fits = common_prefix_len-le log.merkle_paths first in
      let fui : tree_depth - length (drop c log.merkle_paths) ≡ c =
        omega (arith, length-drop c log.merkle_paths) in
      elim (Bool-cases (ltb p c)) [
        | inl later ↦
            let m : min p c ≡ p = omega (arith, ltb→lt p c later) in
            rw (fui, later, m)
              (ap (with_path log)
                (rejoin p c log.merkle_paths first (omega (arith, ltb→lt p c later)) (omega arith)))
        | inr within ↦ let m : min p c ≡ c = omega (arith, ltb→ge p c within) in rw (fui, within, m)
      ]

  -- The levels that a short enough suffix omits are the canonical ones.
  restore :
      (n : ℕ) (first path : List H256)
      → length first ≡ tree_depth
      → length path ≡ tree_depth
      → n ≤ empty_subtree_prefix_len hasher first
      → n ≤ common_prefix_len path first
      → empty_hashes hasher 0 (tree_depth - length (drop n path)) ++ drop n path ≡ path
  restore n first path hf hp he hc =
      let fits = common_prefix_len-le path first in
      let missing : tree_depth - length (drop n path) ≡ n = omega (arith, length-drop n path) in
      let run : n ≤ empty_run hasher 0 first = omega (arith, empty_run-full first hf) in
      rw (missing, take_run n 0 first run, take_common n path first hc) (take-append-drop n path)

  pad_log-legacy :
      (first : List H256) (log : StorageLogMetadata)
      → length first ≡ tree_depth
      → length log.merkle_paths ≡ tree_depth
      → pad_log hasher
          (splice_log first (empty_subtree_prefix_len hasher first) (legacy_log first log)).0
        ≡ log
  unfolding pad_log
  pad_log-legacy first log hf hl = rw (splice_log-legacy first log hl) (
      ap (with_path log) (
        restore
          (min (empty_subtree_prefix_len hasher first) (common_prefix_len log.merkle_paths first))
          first log.merkle_paths hf hl (omega arith) (omega arith)))

  pad_logs-legacy :
      (first : List H256) (rest : List StorageLogMetadata)
      → length first ≡ tree_depth
      → AreFull rest
      → map
          (pad_log hasher)
          (splice_logs first
            (empty_subtree_prefix_len hasher first)
            (map (legacy_log first) rest)).0
        ≡ rest
  unfolding splice_logs
  pad_logs-legacy first [] hf hr = refl
  pad_logs-legacy first (log ∷ rest) hf hr =
      ap₂ ◌∷◌ (pad_log-legacy first log hf hr.0) (pad_logs-legacy first rest hf hr.1)

  pad_log-full :
      (log : StorageLogMetadata) → length log.merkle_paths ≡ tree_depth → pad_log hasher log ≡ log
  unfolding pad_log empty_hashes
  pad_log-full log h = rw h

  legacy_logs-AreShort :
      (first : List H256) (rest : List StorageLogMetadata)
      → AreFull rest
      → AreShort (map (legacy_log first) rest)
  unfolding legacy_log
  legacy_logs-AreShort first [] h = tt
  legacy_logs-AreShort first (log ∷ rest) h = (
    omega (arith, length-drop (common_prefix_len log.merkle_paths first) log.merkle_paths),
    legacy_logs-AreShort first rest h.1,
  )

  -- Full paths that went through the legacy encoder come back: the normalization succeeds, and what
  -- it stores pads to the paths that were encoded. Entry 0 has an empty prefix, as the legacy form
  -- has.
  pub normalize-legacy_encode :
      (first : StorageLogMetadata) (rest : List StorageLogMetadata) (index : ℕ)
      → AreFull (first ∷ rest)
      → 0 < empty_subtree_prefix_len hasher first.merkle_paths
      → (result : WitnessInputMerklePaths × (ℕ × ℕ)) × (normalize_stored_paths hasher
            (record { merkle_paths = legacy_encode first rest; next_enumeration_index = index })
          ≡ ok result)
        × (into_merkle_paths hasher result.0 ≡ first ∷ rest)
  unfolding normalize_stored_paths into_merkle_paths legacy_encode decode_legacy
  normalize-legacy_encode first rest index full padded =
      let p = empty_subtree_prefix_len hasher first.merkle_paths in
      let stored = map (legacy_log first.merkle_paths) rest in
      let spliced = splice_logs first.merkle_paths p stored in
      let trimmed = trim_logs hasher (first ∷ spliced.0) in
      (
        (
          record { merkle_paths = trimmed.0; next_enumeration_index = index },
          (trimmed.1, spliced.1),
        ),
        rw (
          AreShort-check_lengths (first ∷ stored)
              (omega arith, legacy_logs-AreShort first.merkle_paths rest full.1),
          eq→== (length first.merkle_paths) tree_depth full.0,
          lt→ltb 0 p padded,
        ),
        pad_logs-trim hasher (first ∷ spliced.0)
            ∙ ap₂ ◌∷◌ (pad_log-full first full.0)
                (pad_logs-legacy first.merkle_paths rest full.0 full.1),
      )
