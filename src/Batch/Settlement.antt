-- ===== src/Batch/Settlement.antt =====
-- crates/airbender_verifier/src/lib.rs: what `verify_commitment` accepts.
use eravm_airbender_verifier.Common.{
  ℕ, ◌≡◌, refl, sym, ap, Bool, true, false, Option, none, some, List, [], ◌++◌, length, ◌==◌, ok,
  ensure, ◌>>=◌, ◌>>◌, arith, length-append, >>=-eq-ok, ensure-eq-ok, ok-injective, ==→eq, eq→==,
  zk_porter_mismatch, prev_commitment_mismatch, pubdata_missing, blob_hashes_length, NeverPanics,
  ok-NeverPanics, err-NeverPanics, check-NeverPanics, >>=-NeverPanics,
}
use eravm_airbender_verifier.Bytes.{be_bytes}
use eravm_airbender_verifier.Bytes.Values.{length-be_bytes}
use eravm_airbender_verifier.Tree.Types.{H256}
use eravm_airbender_verifier.Tree.Blake2.{Blake2s}
use eravm_airbender_verifier.Commitment.Defs.{Primitives, compute_commitment, verify_blob_hashes}
use eravm_airbender_verifier.Commitment.Blobs.{
  BlobsHold, verify_blob_hashes_lem, verify_blob_hashes-NeverPanics,
}
use eravm_airbender_verifier.Batch.Hashing.{
  two_states, root_state_bytes, pass_through_bytes, pass_through_hash,
  compute_pass_through_data_hash, L1BatchCommitmentHash, commitment_hash, meta_hash, aux_hash,
}
use eravm_airbender_verifier.Batch.Env.{CommitmentInput, total_blobs_in_commitment}
use eravm_airbender_verifier.Batch.Execute.{VmExecutionState, context, bool_eqb}
use eravm_airbender_verifier.Batch.Verify.{
  VerificationResult, zkporter_is_available, commitment_of, result_of, verify_commitment,
}

pub length-root_state_bytes :
    (index : ℕ) (root : H256) → length (root_state_bytes (two_states index root)) ≡ 80
length-root_state_bytes index root = omega (
  arith,
  length-append (be_bytes 8 index) (be_bytes 32 root ++ (be_bytes 8 0 ++ (be_bytes 32 0 ++ []))),
  length-append (be_bytes 32 root) (be_bytes 8 0 ++ (be_bytes 32 0 ++ [])),
  length-append (be_bytes 8 0) (be_bytes 32 0 ++ []),
  length-append (be_bytes 32 0) [],
  length-be_bytes 8 index,
  length-be_bytes 32 root,
  length-be_bytes 8 0,
  length-be_bytes 32 0,
)

module _ (primitives : Primitives) where
  unfoldable pub pass_hash : ℕ → H256 → H256
  pass_hash index root = primitives.keccak256 (root_state_bytes (two_states index root))

  pass_through_hash-two_states :
      (index : ℕ) (root : H256)
      → pass_through_hash primitives (two_states index root) ≡ ok (pass_hash index root)
  unfolding pass_through_hash pass_through_bytes pass_hash
  pass_through_hash-two_states index root = rw (
      eq→== (length (root_state_bytes (two_states index root))) 80
        (length-root_state_bytes index root))

  pub compute_pass_through_data_hash_lem :
      (index : ℕ) (root : H256)
      → compute_pass_through_data_hash primitives index root ≡ ok (pass_hash index root)
  unfolding compute_pass_through_data_hash
  compute_pass_through_data_hash_lem index root = rw (pass_through_hash-two_states index root)

module _ (blake2s : Blake2s) (primitives : Primitives) where
  -- The three hashes of a state's commitment, and the commitment.
  unfoldable pub hashes_of : VmExecutionState → CommitmentInput → L1BatchCommitmentHash
  hashes_of state commitment_input =
      let c = commitment_of blake2s primitives state commitment_input in
      let pass = pass_hash primitives state.new_enumeration_index state.new_root_hash in
      record {
        pass_through_data = pass;
        aux_output = aux_hash primitives c.auxiliary_output;
        meta_parameters = meta_hash primitives c.meta_parameters;
        commitment = primitives.keccak256 (
            be_bytes 32 pass
            ++ (be_bytes 32 (meta_hash primitives c.meta_parameters)
                ++ be_bytes 32 (aux_hash primitives c.auxiliary_output)));
      }

  commitment_hash-hashes_of :
      (state : VmExecutionState) (commitment_input : CommitmentInput)
      → commitment_hash primitives (commitment_of blake2s primitives state commitment_input)
        ≡ ok (hashes_of state commitment_input)
  unfolding commitment_hash hashes_of commitment_of
  commitment_hash-hashes_of state commitment_input =
      rw (pass_through_hash-two_states primitives state.new_enumeration_index state.new_root_hash)

  -- The previous commitment is that of the old root and index with the claimed hashes, the pubdata is
  -- there and has the claimed blobs, of which there are as many as the commitment has slots.
  pub record Settles (state : VmExecutionState) (commitment_input : CommitmentInput) : Type 0 where
    pub no_zk_porter : state.zk_porter_available ≡ false
    pub prev_commitment :
        compute_commitment primitives
          (pass_hash primitives state.prev_enumeration_index state.old_root_hash)
          commitment_input.prev_meta_hash
          commitment_input.prev_aux_hash
        ≡ commitment_input.prev_batch_commitment
    pub pubdata : List ℕ
    pub pubdata_there : state.pubdata_input ≡ some pubdata
    pub blobs :
        BlobsHold primitives pubdata 0 commitment_input.blob_versioned_hashes
          commitment_input.blob_hashes
    pub blob_count : length commitment_input.blob_hashes ≡ total_blobs_in_commitment

  context-ok {ℓ} :
      {A : Type ℓ} (o : Option A) {a : A} → context o pubdata_missing ≡ ok a → o ≡ some a
  context-ok none e = cc
  context-ok (some b) e = ap some (ok-injective e)

  porter_lem : (b : Bool) → bool_eqb b zkporter_is_available ≡ true → b ≡ false
  unfolding zkporter_is_available
  porter_lem true e = sym e
  porter_lem false e = refl

  -- The code on a state and a claim, after the hashes that cannot fail.
  verify_commitment-eq :
      (state : VmExecutionState) (commitment_input : CommitmentInput)
      → verify_commitment blake2s primitives state commitment_input ≡ (
          ensure (bool_eqb state.zk_porter_available zkporter_is_available) zk_porter_mismatch
          >> (ensure
                (compute_commitment primitives
                    (pass_hash primitives state.prev_enumeration_index state.old_root_hash)
                    commitment_input.prev_meta_hash
                    commitment_input.prev_aux_hash
                  == commitment_input.prev_batch_commitment)
                prev_commitment_mismatch
              >> (context state.pubdata_input pubdata_missing >>= λ pubdata.
                  (verify_blob_hashes primitives pubdata commitment_input.blob_versioned_hashes
                      commitment_input.blob_hashes
                    >> (ensure
                          (length commitment_input.blob_hashes == total_blobs_in_commitment)
                          blob_hashes_length
                        >> ok (
                            result_of blake2s primitives state commitment_input
                              (hashes_of state commitment_input)))))))
  unfolding verify_commitment
  verify_commitment-eq state commitment_input = rw (
    compute_pass_through_data_hash_lem primitives state.prev_enumeration_index state.old_root_hash,
    commitment_hash-hashes_of state commitment_input,
  )

  context-NeverPanics {ℓ} : {A : Type ℓ} (o : Option A) → NeverPanics (context o pubdata_missing)
  context-NeverPanics none = err-NeverPanics _
  context-NeverPanics (some a) = ok-NeverPanics a

  -- A batch is accepted exactly where it settles: there is no zkPorter, the claimed previous
  -- commitment is that of the old root and index, the pubdata has the claimed blobs, and there are as
  -- many as the commitment has slots; and the result has the three hashes, the commitment and the
  -- public input of the state. Otherwise there is an error: none of the hashes, and no batch, is a
  -- panic.
  pub verify_commitment_lem :
      (state : VmExecutionState) (commitment_input : CommitmentInput) (result : VerificationResult)
      → NeverPanics (verify_commitment blake2s primitives state commitment_input)
        × ((verify_commitment blake2s primitives state commitment_input ≡ ok result
              → Settles state commitment_input
                × (result_of blake2s primitives state commitment_input
                      (hashes_of state commitment_input)
                    ≡ result))
            × (Settles state commitment_input
                → verify_commitment blake2s primitives state commitment_input
                  ≡ ok (
                      result_of blake2s primitives state commitment_input
                        (hashes_of state commitment_input))))
  unfolding zkporter_is_available
  verify_commitment_lem state commitment_input result =
      rw (verify_commitment-eq state commitment_input) (
        check-NeverPanics (bool_eqb state.zk_porter_available zkporter_is_available)
            zk_porter_mismatch _
            (check-NeverPanics
              (compute_commitment primitives
                  (pass_hash primitives state.prev_enumeration_index state.old_root_hash)
                  commitment_input.prev_meta_hash commitment_input.prev_aux_hash
                == commitment_input.prev_batch_commitment)
              prev_commitment_mismatch _
              (>>=-NeverPanics _ _ (context-NeverPanics state.pubdata_input) (λ pubdata.
                >>=-NeverPanics _ _
                  (verify_blob_hashes-NeverPanics primitives pubdata
                    commitment_input.blob_versioned_hashes commitment_input.blob_hashes)
                  (λ u.
                    check-NeverPanics
                      (length commitment_input.blob_hashes == total_blobs_in_commitment)
                      blob_hashes_length _ (ok-NeverPanics _))))),
        (
          (λ e.
              let (porter, e₁) = ensure-eq-ok _ zk_porter_mismatch _ e in
              let (prev, e₂) = ensure-eq-ok _ prev_commitment_mismatch _ e₁ in
              let (pubdata, there, e₃) =
                >>=-eq-ok (context state.pubdata_input pubdata_missing) _ e₂ in
              let (u, blobs, e₄) =
                >>=-eq-ok
                  (verify_blob_hashes primitives pubdata commitment_input.blob_versioned_hashes
                    commitment_input.blob_hashes)
                  _ e₃ in
              let (count, e₅) = ensure-eq-ok _ blob_hashes_length _ e₄ in
              (
                record {
                  no_zk_porter = porter_lem state.zk_porter_available porter;
                  prev_commitment = ==→eq _ _ prev;
                  pubdata = pubdata;
                  pubdata_there = context-ok state.pubdata_input there;
                  blobs = (verify_blob_hashes_lem primitives pubdata _ _).0 blobs;
                  blob_count = ==→eq _ _ count;
                },
                ok-injective e₅,
              )),
          (λ s. rw (
            s.no_zk_porter,
            eq→== _ _ s.prev_commitment,
            s.pubdata_there,
            (verify_blob_hashes_lem primitives s.pubdata commitment_input.blob_versioned_hashes
                  commitment_input.blob_hashes).1
                s.blobs,
            eq→== _ _ s.blob_count,
          )),
        ),
      )
