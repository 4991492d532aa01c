-- ===== src/Bytes.antt =====
-- Numbers as byte strings: `to_be_bytes`, `to_big_endian`, `to_little_endian` and back.
pub mod Values
use eravm_airbender_verifier.Common.{
  ℕ, zero, suc, ◌+◌, ◌*◌, ◌/◌, ◌%◌, ◌^◌, ◌≡◌, ◌<◌, refl, ap, List, [], ◌∷◌, ◌++◌, arith, length,
}

-- The `width` low bytes of a number, least significant first.
unfoldable pub le_bytes : ℕ → ℕ → List ℕ
le_bytes zero n = []
le_bytes (suc width) n = (n % 256) ∷ le_bytes width (n / 256)

unfoldable pub le_value : List ℕ → ℕ
le_value [] = 0
le_value (b ∷ bs) = b + 256 * le_value bs

-- The `width` low bytes of a number, most significant first.
unfoldable pub be_bytes : ℕ → ℕ → List ℕ
be_bytes zero n = []
be_bytes (suc width) n = be_bytes width (n / 256) ++ (n % 256) ∷ []

unfoldable pub be_value_from : ℕ → List ℕ → ℕ
be_value_from acc [] = acc
be_value_from acc (b ∷ bs) = be_value_from (256 * acc + b) bs

unfoldable pub be_value : List ℕ → ℕ
unfolding be_value_from
be_value bs = be_value_from 0 bs
