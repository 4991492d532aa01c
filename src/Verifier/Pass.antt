-- ===== src/Verifier/Pass.antt =====
-- `verify_paths_and_new_root` accepts exactly where its guards hold and every entry is accepted.
use mathlib.Core.Path.{subst}
use eravm_airbender_verifier.Common.{
  ℕ, ◌≡◌, Bool, true, false, List, length, not, ◌==◌, ok, >>=-eq-ok, ensure-eq-ok, ok-injective,
  ==→eq, eq→==, count_mismatch, root_hash_unavailable, legacy_form, arith,
}
use eravm_airbender_verifier.Tree.Types.{ValueHash}
use eravm_airbender_verifier.Tree.Blake2.{Blake2s}
use eravm_airbender_verifier.Tree.Trim.{FoldsDigest}
use eravm_airbender_verifier.Witness.Defs.{
  WitnessInputMerklePaths, is_legacy_first, is_legacy_delta_form,
}
use eravm_airbender_verifier.Storage.Log.{StorageLog}
use eravm_airbender_verifier.Verifier.Streaming.{
  is_empty_list, prepare_all, fold_all, verify_paths_and_new_root,
}
use eravm_airbender_verifier.Verifier.Accepts.{
  Accepts, streaming-Accepts, Accepts-streaming, Accepts-length,
}

not-true : (b : Bool) → not b ≡ true → b ≡ false
not-true b h = ground arith

module _ (blake2s : Blake2s) (laws : FoldsDigest blake2s) where
  pub record IsAccepted (witness : WitnessInputMerklePaths) (logs : List StorageLog)
      (root : ValueHash) (idx : ℕ) (result : ValueHash × ℕ) : Type 0 where
    pub occupied : is_empty_list witness.merkle_paths ≡ false
    pub per_path_form : is_legacy_delta_form witness ≡ false
    pub entries : Accepts blake2s witness.merkle_paths logs idx root result

  module _ (witness : WitnessInputMerklePaths) (logs : List StorageLog) (root : ValueHash) (idx : ℕ)
      (result : ValueHash × ℕ) where
    pub verify_paths-IsAccepted :
        verify_paths_and_new_root blake2s witness logs root idx ≡ ok result
        → IsAccepted witness logs root idx result
    unfolding verify_paths_and_new_root is_legacy_delta_form
    verify_paths-IsAccepted e =
        let metas = witness.merkle_paths in
        let (counts, e₁) = ensure-eq-ok (length metas == length logs) count_mismatch _ e in
        let (occupied, e₂) = ensure-eq-ok (not (is_empty_list metas)) root_hash_unavailable _ e₁ in
        let (per_path, e₃) = ensure-eq-ok (not (is_legacy_first metas)) legacy_form _ e₂ in
        let (prepared, prepares, e₄) = >>=-eq-ok (prepare_all blake2s metas logs idx) _ e₃ in
        let (new_root, folds, e₅) = >>=-eq-ok (fold_all blake2s metas prepared.0 root) _ e₄ in
        let same : (new_root, prepared.1) ≡ result = ok-injective e₅ in
        record {
          occupied = not-true _ occupied;
          per_path_form = not-true _ per_path;
          entries = subst (Accepts blake2s metas logs idx root) same (
              streaming-Accepts blake2s laws metas logs idx prepared.1 root new_root prepared.0
                (==→eq _ _ counts) prepares folds);
        }

    pub IsAccepted-verify_paths :
        IsAccepted witness logs root idx result
        → verify_paths_and_new_root blake2s witness logs root idx ≡ ok result
    unfolding verify_paths_and_new_root is_legacy_delta_form
    IsAccepted-verify_paths a =
        let (prepared, prepares, folds) =
          Accepts-streaming blake2s laws witness.merkle_paths logs idx root result a.entries in
        rw (
          eq→== _ _
              (Accepts-length blake2s laws witness.merkle_paths logs idx root result a.entries),
          a.occupied,
          a.per_path_form,
          prepares,
          folds,
        )
