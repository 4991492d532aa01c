-- ===== src/Commitment/Blobs.antt =====
-- crates/airbender_verifier/src/commitment.rs: when the claimed blob hashes are accepted.
use eravm_airbender_verifier.Common.{
  ℕ, Bool, true, Outcome, Panic, assert, ◌>>◌, opening_value_not_32_bytes, suc, ◌+◌, ◌-◌, ◌*◌, ◌≡◌,
  ◌≢◌, ◌<◌, ◌⊎◌, inl, inr, refl, sym, ap, ◌∙◌, false, Option, none, some, List, [], ◌∷◌, ◌++◌,
  length, min, leb, ◌==◌, ok, arith, Bool-cases, >>=-eq-ok, ensure-eq-ok, ensure-true, ==→eq, ==→ne,
  eq→==, ne→==, ltb→lt, lt→ltb, no_pubdata_for_blob, linear_hash_mismatch, blob_count_mismatch,
  opening_commitment_mismatch, commitment_of_no_blob, NeverPanics, ok-NeverPanics,
  ensure-NeverPanics, check-NeverPanics, ltb, >>=-NeverPanics,
}
use eravm_airbender_verifier.Tree.Types.{H256}
use eravm_airbender_verifier.Commitment.Defs.{
  zk_sync_bytes_per_blob, Primitives, BlobHash, padded_blob_for, blob_bytes, num_blobs_from_pubdata,
  compute_blob_opening_commitment, check_blob, check_blobs_from, verify_blob_hashes,
}

leb→gt : (a b : ℕ) → leb a b ≡ false → b < a
leb→gt a b h = ground arith

none-some {ℓ} : {A : Type ℓ} {a : A} → none ≡ some a → ⊥
none-some e = cc

abbrev some_or {ℓ} : {A : Type ℓ} → A → Option A → A
some_or d none = d
some_or d (some a) = a

some-injective {ℓ} : {A : Type ℓ} {a b : A} → some a ≡ some b → a ≡ b
some-injective {a = a} e = ap (some_or a) e

append_nil : (xs : List ℕ) → xs ++ [] ≡ xs
append_nil [] = refl
append_nil (x ∷ xs) = ap (λ ys. x ∷ ys) (append_nil xs)

num_blobs-lt :
    (pubdata : List ℕ) (i : ℕ)
    → i < num_blobs_from_pubdata pubdata
    → i * zk_sync_bytes_per_blob < length pubdata
unfolding num_blobs_from_pubdata zk_sync_bytes_per_blob
num_blobs-lt pubdata i h = omega arith

lt-num_blobs :
    (pubdata : List ℕ) (i : ℕ)
    → i * zk_sync_bytes_per_blob < length pubdata
    → i < num_blobs_from_pubdata pubdata
unfolding num_blobs_from_pubdata zk_sync_bytes_per_blob
lt-num_blobs pubdata i h = omega arith

gt→leb : (a b : ℕ) → b < a → leb a b ≡ false
gt→leb a b h = ground arith

padded-lt :
    (pubdata : List ℕ) (i : ℕ) (blob : List ℕ)
    → padded_blob_for pubdata i ≡ some blob
    → i * zk_sync_bytes_per_blob < length pubdata
unfolding padded_blob_for
padded-lt pubdata i blob e = elim (Bool-cases (leb (length pubdata) (i * zk_sync_bytes_per_blob))) [
  | inl past ↦ absurd (none-some (rw past at e))
  | inr there ↦ leb→gt _ _ there
]

-- The loop's padding is `padded_blob_for`, wherever there is pubdata for the slot.
padded_blob_for-blob_bytes :
    (pubdata : List ℕ) (i : ℕ)
    → i * zk_sync_bytes_per_blob < length pubdata
    → padded_blob_for pubdata i ≡ some (blob_bytes pubdata i)
unfolding padded_blob_for blob_bytes
padded_blob_for-blob_bytes pubdata i h =
    let start = i * zk_sync_bytes_per_blob in
    let end = min ((i + 1) * zk_sync_bytes_per_blob) (length pubdata) in
    let there : leb (length pubdata) start ≡ false = gt→leb (length pubdata) start h in
    elim (Bool-cases ((end - start) == zk_sync_bytes_per_blob)) [
      | inl whole ↦
          let none_left : zk_sync_bytes_per_blob - (end - start) ≡ 0 =
            omega (arith, ==→eq (end - start) zk_sync_bytes_per_blob whole) in
          rw (there, whole, none_left, append_nil)
      | inr partial ↦ rw (there, partial)
    ]

assert-holds {ℓ} :
    {A : Type ℓ} (holds : Bool) (stop : Panic) (next : Outcome A)
    → holds ≡ true
    → (assert holds stop >> next) ≡ next
assert-holds true stop next e = refl
assert-holds false stop next e = absurd cc

module _ (primitives : Primitives) where
  -- A slot that claims no blob, or one whose hashes are those of the pubdata's blob.
  abbrev pub BlobHolds : List ℕ → ℕ → H256 → BlobHash → Type 0
  BlobHolds pubdata i versioned_hash blob_hash =
      ((blob_hash.linear_hash ≡ 0) × (blob_hash.commitment ≡ 0))
      ⊎ ((blob_hash.linear_hash ≢ 0)
          × ((blob : List ℕ) × (padded_blob_for pubdata i ≡ some blob)
              × (blob_hash.linear_hash ≡ primitives.keccak256 blob)
              × (compute_blob_opening_commitment primitives blob versioned_hash
                    blob_hash.linear_hash
                  ≡ ok blob_hash.commitment)))

  -- The conversion to 32 bytes succeeds: the commitment is always there.
  opened :
      (blob : List ℕ) (versioned_hash linear_hash : H256)
      → (commitment : H256) × (compute_blob_opening_commitment primitives blob versioned_hash
            linear_hash
          ≡ ok commitment)
  unfolding compute_blob_opening_commitment
  opened blob versioned_hash linear_hash = (
    _,
    assert-holds _ opening_value_not_32_bytes _ (eq→== _ 32 (primitives.length-to_bytes_be _)),
  )

  check_blob-BlobHolds :
      (pubdata : List ℕ) (i : ℕ) (versioned_hash : H256) (blob_hash : BlobHash)
      → check_blob primitives pubdata i versioned_hash blob_hash ≡ ok tt
      → BlobHolds pubdata i versioned_hash blob_hash
  unfolding check_blob
  check_blob-BlobHolds pubdata i versioned_hash blob_hash e =
      elim (Bool-cases (blob_hash.linear_hash == 0)) [
        | inl no_blob ↦
            inl
              (==→eq _ _ no_blob, ==→eq _ _ (ensure-true _ commitment_of_no_blob (rw no_blob at e)))
        | inr claimed ↦
            let (slot, e₁) = ensure-eq-ok _ no_pubdata_for_blob _ (rw claimed at e) in
            let (linear, e₂) = ensure-eq-ok _ linear_hash_mismatch _ e₁ in
            let (computed, opens, e₃) =
              >>=-eq-ok
                (compute_blob_opening_commitment primitives (blob_bytes pubdata i) versioned_hash
                  blob_hash.linear_hash)
                _ e₂ in
            let opening = ensure-true _ opening_commitment_mismatch e₃ in
            inr (
              ==→ne _ _ claimed,
              (
                blob_bytes pubdata i,
                padded_blob_for-blob_bytes pubdata i (num_blobs-lt pubdata i (ltb→lt _ _ slot)),
                ==→eq _ _ linear,
                opens ∙ ap ok (sym (==→eq _ _ opening)),
              ),
            )
      ]

  BlobHolds-check_blob :
      (pubdata : List ℕ) (i : ℕ) (versioned_hash : H256) (blob_hash : BlobHash)
      → BlobHolds pubdata i versioned_hash blob_hash
      → check_blob primitives pubdata i versioned_hash blob_hash ≡ ok tt
  unfolding check_blob
  BlobHolds-check_blob pubdata i versioned_hash blob_hash (inl (linear, commitment)) =
      rw (eq→== _ _ linear, eq→== _ _ commitment)
  BlobHolds-check_blob pubdata i versioned_hash blob_hash
        (inr (claimed, (blob, padded, linear, opening))) =
      let there = padded-lt pubdata i blob padded in
      let same : blob ≡ blob_bytes pubdata i =
        some-injective (sym padded ∙ padded_blob_for-blob_bytes pubdata i there) in
      rw (
        ne→== _ _ claimed,
        lt→ltb _ _ (lt-num_blobs pubdata i there),
        ← same,
        eq→== _ _ linear,
        opening,
        eq→== blob_hash.commitment _ refl,
      )

  -- Every slot holds, from a slot on; the lists are as long as each other.
  abbrev pub BlobsHold : List ℕ → ℕ → List H256 → List BlobHash → Type 0
  BlobsHold pubdata i [] [] = Unit
  BlobsHold pubdata i [] (blob_hash ∷ blob_hashes) = ⊥
  BlobsHold pubdata i (versioned_hash ∷ versioned) [] = ⊥
  BlobsHold pubdata i (versioned_hash ∷ versioned) (blob_hash ∷ blob_hashes) =
      BlobHolds pubdata i versioned_hash blob_hash × BlobsHold pubdata (suc i) versioned blob_hashes

  check_blobs-BlobsHold :
      (pubdata : List ℕ) (i : ℕ) (versioned : List H256) (blob_hashes : List BlobHash)
      → length versioned ≡ length blob_hashes
      → check_blobs_from primitives pubdata i versioned blob_hashes ≡ ok tt
      → BlobsHold pubdata i versioned blob_hashes
  unfolding check_blobs_from
  check_blobs-BlobsHold pubdata i [] [] l e = tt
  check_blobs-BlobsHold pubdata i [] (blob_hash ∷ blob_hashes) l e = omega (arith, l)
  check_blobs-BlobsHold pubdata i (versioned_hash ∷ versioned) [] l e = omega (arith, l)
  check_blobs-BlobsHold pubdata i (versioned_hash ∷ versioned) (blob_hash ∷ blob_hashes) l e =
      let (_, first, rest) =
        >>=-eq-ok (check_blob primitives pubdata i versioned_hash blob_hash) _ e in
      (
        check_blob-BlobHolds pubdata i versioned_hash blob_hash first,
        check_blobs-BlobsHold pubdata (suc i) versioned blob_hashes (omega (arith, l)) rest,
      )

  BlobsHold-check_blobs :
      (pubdata : List ℕ) (i : ℕ) (versioned : List H256) (blob_hashes : List BlobHash)
      → BlobsHold pubdata i versioned blob_hashes
      → (length versioned ≡ length blob_hashes)
        × (check_blobs_from primitives pubdata i versioned blob_hashes ≡ ok tt)
  unfolding check_blobs_from
  BlobsHold-check_blobs pubdata i [] [] h = (refl, refl)
  BlobsHold-check_blobs pubdata i [] (blob_hash ∷ blob_hashes) h = absurd h
  BlobsHold-check_blobs pubdata i (versioned_hash ∷ versioned) [] h = absurd h
  BlobsHold-check_blobs pubdata i (versioned_hash ∷ versioned) (blob_hash ∷ blob_hashes)
        (first, rest) =
      let (same, checked) = BlobsHold-check_blobs pubdata (suc i) versioned blob_hashes rest in
      (ap suc same, rw (BlobHolds-check_blob pubdata i versioned_hash blob_hash first, checked))

  -- The claimed blob hashes are accepted exactly where there are as many as versioned hashes and
  -- every slot either claims no blob, with both hashes zero, or claims the Keccak hash and the
  -- opening commitment of that slot's zero-padded blob of the pubdata.
  pub verify_blob_hashes_lem :
      (pubdata : List ℕ) (versioned_hashes : List H256) (blob_hashes : List BlobHash)
      → (verify_blob_hashes primitives pubdata versioned_hashes blob_hashes ≡ ok tt
          → BlobsHold pubdata 0 versioned_hashes blob_hashes)
        × (BlobsHold pubdata 0 versioned_hashes blob_hashes
            → verify_blob_hashes primitives pubdata versioned_hashes blob_hashes ≡ ok tt)
  unfolding verify_blob_hashes
  verify_blob_hashes_lem pubdata versioned_hashes blob_hashes = (
    (λ e.
        let (same, checked) = ensure-eq-ok _ blob_count_mismatch _ e in
        check_blobs-BlobsHold pubdata 0 versioned_hashes blob_hashes (==→eq _ _ same) checked),
    (λ h.
        let (same, checked) = BlobsHold-check_blobs pubdata 0 versioned_hashes blob_hashes h in
        rw (eq→== _ _ same, checked)),
  )

  check_blob-NeverPanics :
      (pubdata : List ℕ) (i : ℕ) (versioned_hash : H256) (blob_hash : BlobHash)
      → NeverPanics (check_blob primitives pubdata i versioned_hash blob_hash)
  unfolding check_blob
  check_blob-NeverPanics pubdata i versioned_hash blob_hash =
      elim (Bool-cases (blob_hash.linear_hash == 0)) [
        | inl empty ↦
            rw empty (ensure-NeverPanics (blob_hash.commitment == 0) commitment_of_no_blob)
        | inr claimed ↦
            let bytes = blob_bytes pubdata i in
            rw claimed (
              check-NeverPanics (ltb i (num_blobs_from_pubdata pubdata)) no_pubdata_for_blob _ (
                check-NeverPanics (blob_hash.linear_hash == primitives.keccak256 bytes)
                  linear_hash_mismatch _
                  (let (computed, opens) = opened bytes versioned_hash blob_hash.linear_hash in
                    rw opens (
                      ensure-NeverPanics (blob_hash.commitment == computed)
                        opening_commitment_mismatch))))
      ]

  check_blobs-NeverPanics :
      (pubdata : List ℕ) (i : ℕ) (versioned : List H256) (blob_hashes : List BlobHash)
      → NeverPanics (check_blobs_from primitives pubdata i versioned blob_hashes)
  unfolding check_blobs_from
  check_blobs-NeverPanics pubdata i [] blob_hashes = ok-NeverPanics tt
  check_blobs-NeverPanics pubdata i (versioned_hash ∷ versioned) [] = ok-NeverPanics tt
  check_blobs-NeverPanics pubdata i (versioned_hash ∷ versioned) (blob_hash ∷ blob_hashes) =
      >>=-NeverPanics _ _ (check_blob-NeverPanics pubdata i versioned_hash blob_hash)
        (λ u. check_blobs-NeverPanics pubdata (suc i) versioned blob_hashes)

  pub verify_blob_hashes-NeverPanics :
      (pubdata : List ℕ) (versioned_hashes : List H256) (blob_hashes : List BlobHash)
      → NeverPanics (verify_blob_hashes primitives pubdata versioned_hashes blob_hashes)
  unfolding verify_blob_hashes
  verify_blob_hashes-NeverPanics pubdata versioned_hashes blob_hashes =
      check-NeverPanics (length versioned_hashes == length blob_hashes) blob_count_mismatch _
        (check_blobs-NeverPanics pubdata 0 versioned_hashes blob_hashes)
