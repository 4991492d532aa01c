-- ===== src/Batch/Preimages.antt =====
-- crates/types/src/commitment/mod.rs: the bytes under the hashes of a batch tell its parts apart.
use eravm_airbender_verifier.Common.{◌≡◌, refl, ap, true, some, List, [], ◌∷◌, arith, length}
use mathlib.Core.Path.{ap₂}
use eravm_airbender_verifier.Tree.Types.{H256}
use eravm_airbender_verifier.Tree.Roots.{IsWord}
use eravm_airbender_verifier.Commitment.Defs.{BlobHash}
use eravm_airbender_verifier.Commitment.Keccak.{append-injective, field_injective, bytes_injective}
use eravm_airbender_verifier.Batch.Hashing.{
  has_emulator_slot, meta_bytes, blob_hash_bytes, bool_byte, L1BatchMetaParameters,
}

abbrev pub BlobsInRange : List BlobHash → Type 0
BlobsInRange [] = Unit
BlobsInRange (b ∷ blob_hashes) =
    IsWord b.linear_hash × (IsWord b.commitment × BlobsInRange blob_hashes)

pub blob_hash_bytes-injective :
    (xs ys : List BlobHash)
    → BlobsInRange xs
    → BlobsInRange ys
    → length xs ≡ length ys
    → blob_hash_bytes xs ≡ blob_hash_bytes ys
    → xs ≡ ys
blob_hash_bytes-injective [] [] rx ry len e = refl
blob_hash_bytes-injective [] (y ∷ ys) rx ry len e = absurd (omega (arith, len))
blob_hash_bytes-injective (x ∷ xs) [] rx ry len e = absurd (omega (arith, len))
blob_hash_bytes-injective (x ∷ xs) (y ∷ ys) (lx, (cx, rx)) (ly, (cy, ry)) len e =
    let (linear, rest) = field_injective 32 x.linear_hash y.linear_hash lx ly e in
    let (commit, rest') = field_injective 32 x.commitment y.commitment cx cy rest in
    let rest'' = blob_hash_bytes-injective xs ys rx ry (omega (arith, len)) rest' in
    ap₂ ◌∷◌ (ap₂ (λ c l. record { commitment = c; linear_hash = l }) commit linear) rest''

-- The meta parameters with an emulator slot.
pub meta_bytes-injective :
    (p q : L1BatchMetaParameters) (emulator emulator' : H256)
    → p.evm_emulator_code_hash ≡ some emulator
    → q.evm_emulator_code_hash ≡ some emulator'
    → has_emulator_slot p.protocol_version ≡ true
    → has_emulator_slot q.protocol_version ≡ true
    → IsWord p.bootloader_code_hash
    → IsWord q.bootloader_code_hash
    → IsWord p.default_aa_code_hash
    → IsWord q.default_aa_code_hash
    → IsWord emulator
    → IsWord emulator'
    → meta_bytes p ≡ meta_bytes q
    → (p.bootloader_code_hash ≡ q.bootloader_code_hash)
      × ((p.default_aa_code_hash ≡ q.default_aa_code_hash) × (emulator ≡ emulator'))
unfolding meta_bytes
meta_bytes-injective p q emulator emulator' ep eq sp sq bp bq ap aq wp wq e =
    let (_, rest) =
      append-injective (bool_byte p.zkporter_is_available ∷ [])
        (bool_byte q.zkporter_is_available ∷ []) refl (rw (ep, eq, sp, sq) at e) in
    let (boot, rest') = field_injective 32 _ _ bp bq rest in
    let (account, rest'') = field_injective 32 _ _ ap aq rest' in
    (boot, (account, bytes_injective 32 emulator emulator' wp wq rest''))
