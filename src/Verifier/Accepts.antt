-- ===== src/Verifier/Accepts.antt =====
-- What it takes for the streaming pass to accept, entry by entry, with the two passes joined.
use mathlib.Core.Path.{subst}
use eravm_airbender_verifier.Common.{
  ℕ, suc, ◌≡◌, ◌≤◌, refl, sym, ap, ◌∙◌, List, [], ◌∷◌, length, ◌==◌, ok, >>=-eq-ok, ensure-eq-ok,
  ok-injective, ==→eq, eq→==, leb→le, le→leb, path_too_long, prev_hash_mismatch, key_mismatch,
  arith,
}
use eravm_airbender_verifier.Tree.Types.{
  ValueHash, tree_depth, TreeInstruction, TreeLogEntry, TreeLogEntryWithProof,
}
use eravm_airbender_verifier.Tree.Hasher.{
  HashTree, fold_merkle_path, prev_entry, check_op_root, check_next_hash, verify_op,
}
use eravm_airbender_verifier.Tree.Blake2.{Blake2s, blake2_hasher}
use eravm_airbender_verifier.Tree.Trim.{FoldsDigest, blake2_fold_merkle_path-eq-fold_merkle_path}
use eravm_airbender_verifier.Witness.Defs.{StorageLogMetadata}
use eravm_airbender_verifier.Storage.Log.{StorageLog, hashed_key_u256}
use eravm_airbender_verifier.Verifier.Defs.{tree_log_entry_from_witness, map_log_tree}
use eravm_airbender_verifier.Verifier.Streaming.{prepare, prepare_all, fold_entry, fold_all}
use eravm_airbender_verifier.Verifier.Oracle.{proof_of}

-- An accepted operation leaves its own root.
pub verify_op-root :
    (hasher : HashTree) (root : ValueHash) (op : TreeLogEntryWithProof)
    (instruction : TreeInstruction) {r : ValueHash}
    → verify_op hasher root op instruction ≡ ok r
    → r ≡ op.root_hash
unfolding verify_op
verify_op-root hasher root op instruction e =
    let (_, e₁) = ensure-eq-ok _ path_too_long _ e in
    let (_, _, e₂) = >>=-eq-ok (check_op_root instruction op.base op.root_hash root) _ e₁ in
    let (prev, _, e₃) =
      >>=-eq-ok (fold_merkle_path hasher op.merkle_path (prev_entry op.base instruction)) _ e₂ in
    let (_, e₄) = ensure-eq-ok (prev == root) prev_hash_mismatch _ e₃ in
    let (_, _, e₅) =
      >>=-eq-ok (check_next_hash hasher instruction op.merkle_path op.root_hash) _ e₄ in
    sym (ok-injective e₅)

module _ (blake2s : Blake2s) where
  -- One entry and its log are accepted at a running root and index.
  pub record IsStep (meta : StorageLogMetadata) (log : StorageLog) (idx : ℕ) (root : ValueHash)
      (base : TreeLogEntry) (instruction : TreeInstruction) (next : ℕ) : Type 0 where
    pub short : length meta.merkle_paths ≤ tree_depth
    pub classified : tree_log_entry_from_witness meta ≡ ok base
    pub bound : meta.leaf_hashed_key ≡ hashed_key_u256 blake2s log.key
    pub mapped : map_log_tree meta.leaf_hashed_key log base idx ≡ ok (instruction, next)
    pub verified :
        verify_op (blake2_hasher blake2s) root (proof_of meta base) instruction ≡ ok meta.root_hash

  -- All entries are accepted, one after the other, with the final root and index.
  abbrev pub Accepts :
      List StorageLogMetadata → List StorageLog → ℕ → ValueHash → ValueHash × ℕ → Type 0
  Accepts [] [] idx root result = result ≡ (root, idx)
  Accepts [] (log ∷ logs) idx root result = ⊥
  Accepts (meta ∷ metas) [] idx root result = ⊥
  Accepts (meta ∷ metas) (log ∷ logs) idx root result =
      (base : TreeLogEntry) × (instruction : TreeInstruction) × (next : ℕ) × IsStep meta log idx
        root base instruction next
      × Accepts metas logs next meta.root_hash result

  prepare-eq-ok :
      (meta : StorageLogMetadata) (log : StorageLog) (idx : ℕ)
      (prepared : (TreeLogEntry × TreeInstruction) × ℕ)
      → prepare blake2s meta log idx ≡ ok prepared
      → (length meta.merkle_paths ≤ tree_depth)
        × (tree_log_entry_from_witness meta ≡ ok prepared.0.0)
        × (meta.leaf_hashed_key ≡ hashed_key_u256 blake2s log.key)
        × (map_log_tree meta.leaf_hashed_key log prepared.0.0 idx ≡ ok (prepared.0.1, prepared.1))
  unfolding prepare
  prepare-eq-ok meta log idx prepared e =
      let (short, rest) = ensure-eq-ok _ path_too_long _ e in
      let (base, classified, rest') = >>=-eq-ok (tree_log_entry_from_witness meta) _ rest in
      let (bound, rest'') = ensure-eq-ok _ key_mismatch _ rest' in
      let (mapped, maps, done) =
        >>=-eq-ok (map_log_tree meta.leaf_hashed_key log base idx) _ rest'' in
      subst
        (λ (p : (TreeLogEntry × TreeInstruction) × ℕ).
          (length meta.merkle_paths ≤ tree_depth)
          × (tree_log_entry_from_witness meta ≡ ok p.0.0)
          × (meta.leaf_hashed_key ≡ hashed_key_u256 blake2s log.key)
          × (map_log_tree meta.leaf_hashed_key log p.0.0 idx ≡ ok (p.0.1, p.1)))
        (ok-injective done) (leb→le _ _ short, classified, ==→eq _ _ bound, maps)

  prepare-ok :
      (meta : StorageLogMetadata) (log : StorageLog) (idx : ℕ) {root : ValueHash}
      {base : TreeLogEntry} {instruction : TreeInstruction} {next : ℕ}
      → IsStep meta log idx root base instruction next
      → prepare blake2s meta log idx ≡ ok ((base, instruction), next)
  unfolding prepare
  prepare-ok meta log idx s = rw (le→leb _ _ s.short, s.classified, eq→== _ _ s.bound, s.mapped)

  fold_entry-eq-verify_op :
      FoldsDigest blake2s
      → (meta : StorageLogMetadata) (base : TreeLogEntry) (instruction : TreeInstruction)
        (root : ValueHash)
      → length meta.merkle_paths ≤ tree_depth
      → fold_entry blake2s meta (base, instruction) root
        ≡ verify_op (blake2_hasher blake2s) root (proof_of meta base) instruction
  unfolding fold_entry verify_op proof_of check_next_hash
  fold_entry-eq-verify_op laws meta base (TreeInstruction.read key) root h =
      rw (le→leb _ _ h, blake2_fold_merkle_path-eq-fold_merkle_path blake2s laws)
  fold_entry-eq-verify_op laws meta base (TreeInstruction.write entry) root h = rw (
    le→leb _ _ h,
    blake2_fold_merkle_path-eq-fold_merkle_path blake2s laws meta.merkle_paths
        (prev_entry base (TreeInstruction.write entry)),
    blake2_fold_merkle_path-eq-fold_merkle_path blake2s laws meta.merkle_paths entry,
  )

  module _ (laws : FoldsDigest blake2s) where
    pub streaming-Accepts :
        (metas : List StorageLogMetadata) (logs : List StorageLog) (idx last : ℕ)
        (root result : ValueHash) (prepared : List (TreeLogEntry × TreeInstruction))
        → length metas ≡ length logs
        → prepare_all blake2s metas logs idx ≡ ok (prepared, last)
        → fold_all blake2s metas prepared root ≡ ok result
        → Accepts metas logs idx root (result, last)
    unfolding prepare_all fold_all proof_of
    streaming-Accepts [] [] idx last root result prepared h p f = ground arith
    streaming-Accepts [] (log ∷ logs) idx last root result prepared h p f = absurd (omega arith)
    streaming-Accepts (meta ∷ metas) [] idx last root result prepared h p f = absurd (omega arith)
    streaming-Accepts (meta ∷ metas) (log ∷ logs) idx last root result prepared h p f =
        let (first, prepares, rest) = >>=-eq-ok (prepare blake2s meta log idx) _ p in
        let (others, all, done) = >>=-eq-ok (prepare_all blake2s metas logs first.1) _ rest in
        let same = ok-injective done in
        let folds =
          subst (λ l. fold_all blake2s (meta ∷ metas) l root ≡ ok result) (sym (ap (λ t. t.0) same))
            f in
        let (op_root, folded, above) = >>=-eq-ok (fold_entry blake2s meta first.0 root) _ folds in
        let (short, classified, bound, mapped) = prepare-eq-ok meta log idx first prepares in
        let verified =
          sym (fold_entry-eq-verify_op laws meta first.0.0 first.0.1 root short) ∙ folded in
        let op : op_root ≡ meta.root_hash =
          verify_op-root (blake2_hasher blake2s) root _ _ verified in
        (
          first.0.0,
          first.0.1,
          first.1,
          record {
            short = short;
            classified = classified;
            bound = bound;
            mapped = mapped;
            verified = verified ∙ ap ok op;
          },
          streaming-Accepts metas logs first.1 last meta.root_hash result others.0 (omega arith)
              (all ∙ ap (λ t. ok (others.0, t.1)) same)
              (ap (fold_all blake2s metas others.0) (sym op) ∙ above),
        )

    pub Accepts-streaming :
        (metas : List StorageLogMetadata) (logs : List StorageLog) (idx : ℕ) (root : ValueHash)
        (result : ValueHash × ℕ)
        → Accepts metas logs idx root result
        → (prepared : List (TreeLogEntry × TreeInstruction)) × (prepare_all blake2s metas logs idx
            ≡ ok (prepared, result.1))
          × (fold_all blake2s metas prepared root ≡ ok result.0)
    unfolding prepare_all fold_all proof_of
    Accepts-streaming [] [] idx root result a =
        ([], ap (λ t. ok ([], t.1)) (sym a), ap (λ t. ok t.0) (sym a))
    Accepts-streaming [] (log ∷ logs) idx root result a = absurd a
    Accepts-streaming (meta ∷ metas) [] idx root result a = absurd a
    Accepts-streaming (meta ∷ metas) (log ∷ logs) idx root result (base, instruction, next, s, a) =
        let (rest, prepares, folds) = Accepts-streaming metas logs next meta.root_hash result a in
        (
          (base, instruction) ∷ rest,
          rw (prepare-ok meta log idx s, prepares),
          rw (fold_entry-eq-verify_op laws meta base instruction root s.short, s.verified) folds,
        )

    pub Accepts-length :
        (metas : List StorageLogMetadata) (logs : List StorageLog) (idx : ℕ) (root : ValueHash)
        (result : ValueHash × ℕ)
        → Accepts metas logs idx root result
        → length metas ≡ length logs
    Accepts-length [] [] idx root result a = refl
    Accepts-length [] (log ∷ logs) idx root result a = absurd a
    Accepts-length (meta ∷ metas) [] idx root result a = absurd a
    Accepts-length (meta ∷ metas) (log ∷ logs) idx root result (base, instruction, next, s, a) =
        ap suc (Accepts-length metas logs next meta.root_hash result a)
