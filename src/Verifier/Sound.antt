-- ===== src/Verifier/Sound.antt =====
-- crates/airbender_verifier/src/merkle_witness.rs: what an accepted batch means for the tree.
use eravm_airbender_verifier.Common.{ℕ, ◌≡◌, ◌⊎◌, List, ok}
use eravm_airbender_verifier.Tree.Types.{ValueHash}
use eravm_airbender_verifier.Tree.Blake2.{Blake2s, blake2_hasher}
use eravm_airbender_verifier.Tree.Trim.{FoldsDigest}
use eravm_airbender_verifier.Tree.Roots.{Leaves, ReturnsWords, tree_root}
use eravm_airbender_verifier.Witness.Defs.{WitnessInputMerklePaths}
use eravm_airbender_verifier.Storage.Log.{StorageLog}
use eravm_airbender_verifier.Verifier.Streaming.{verify_paths_and_new_root}
use eravm_airbender_verifier.Verifier.Pass.{verify_paths-IsAccepted}
use eravm_airbender_verifier.Verifier.Replay.{MetasInRange, LogsInRange, TreeInRange}
use eravm_airbender_verifier.Verifier.Soundness.{IsReplayed, BatchCollision, Accepts-sound}

-- From the root of a tree, the verifier accepts a witness and the VM's logs only where the new root
-- is the root of the tree that the logs, replayed one by one, leave, the new index is the index they
-- leave, every read saw the tree as it was then, and every witness entry names the leaf that the tree
-- held then; otherwise, at some entry up to which this holds, the fold of the entry's path hashes, at a
-- node on its way, another input than the tree of that point has there, to the same hash. The
-- incremental hasher agrees with the one-shot one, hashes are 256-bit words, and the witness, the logs
-- and the tree are in their machine ranges.
pub verify_paths_sound :
    (blake2s : Blake2s) (witness : WitnessInputMerklePaths) (logs : List StorageLog)
    (leaves : Leaves) (idx : ℕ) (result : ValueHash × ℕ)
    → FoldsDigest blake2s
    → ReturnsWords (blake2_hasher blake2s)
    → MetasInRange witness.merkle_paths
    → LogsInRange logs
    → TreeInRange (leaves, idx)
    → verify_paths_and_new_root blake2s witness logs (tree_root (blake2_hasher blake2s) leaves) idx
      ≡ ok result
    → BatchCollision blake2s (leaves, idx) witness.merkle_paths logs
      ⊎ IsReplayed blake2s (leaves, idx) witness.merkle_paths logs result
verify_paths_sound blake2s witness logs leaves idx result laws words metas_range logs_range tree e =
    let a = verify_paths-IsAccepted blake2s laws witness logs _ idx result e in
    Accepts-sound blake2s words witness.merkle_paths logs leaves idx result metas_range logs_range
      tree a.entries
