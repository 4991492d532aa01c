-- ===== src/Commitment/Keccak.antt =====
-- crates/airbender_verifier/src/commitment.rs and crates/types/src/commitment/mod.rs: what an equal
-- Keccak hash says of the fields that were hashed.
use mathlib.Core.Path.{ap₂}
use native.Mathlib.Decide.{ℕ_discrete}
use eravm_airbender_verifier.Common.{
  ℕ, ◌^◌, ◌<◌, ◌≡◌, ◌≢◌, ◌⊎◌, inl, inr, refl, sym, ◌∙◌, ap, List, [], ◌∷◌, ◌++◌, length, take, drop,
  take-append, drop-append,
}
use eravm_airbender_verifier.Bytes.{be_bytes, be_value}
use eravm_airbender_verifier.Bytes.Values.{length-be_bytes, be_value-be_bytes}
use eravm_airbender_verifier.Tree.Types.{H256}
use eravm_airbender_verifier.Tree.Roots.{IsWord}
use eravm_airbender_verifier.Commitment.Defs.{Primitives}

-- These two byte strings are different and have one hash.
pub record Collides (primitives : Primitives) (a b : List ℕ) : Type 0 where
  pub same_hash : primitives.keccak256 a ≡ primitives.keccak256 b
  pub differ : a ≢ b

-- A collision ends an argument; without one it goes on.
pub unless_collision : {A B C D : Type 0} → (C → D) → C ⊎ A → (A → D ⊎ B) → D ⊎ B
unless_collision found (inl collision) continue = inl (found collision)
unless_collision found (inr a) continue = continue a

-- What a commitment hashes, from its three parts.
abbrev pub commitment_preimage : H256 → H256 → H256 → List ℕ
commitment_preimage a b c = be_bytes 32 a ++ (be_bytes 32 b ++ be_bytes 32 c)

abbrev pub ReturnsHashes : Primitives → Type 0
ReturnsHashes primitives = (bytes : List ℕ) → IsWord (primitives.keccak256 bytes)

-- The first element and the rest of a list that has one.
head_or : ℕ → List ℕ → ℕ
head_or d [] = d
head_or d (x ∷ xs) = x

tail_of : List ℕ → List ℕ
tail_of [] = []
tail_of (x ∷ xs) = xs

pub bytes_equal : (xs ys : List ℕ) → (xs ≡ ys) ⊎ (xs ≢ ys)
unfolding head_or tail_of
bytes_equal [] [] = inl refl
bytes_equal [] (y ∷ ys) = inr (λ e. cc)
bytes_equal (x ∷ xs) [] = inr (λ e. cc)
bytes_equal (x ∷ xs) (y ∷ ys) = elim (ℕ_discrete x y) [
  | no p ↦ inr (λ e. p (ap (head_or 0) e))
  | yes p ↦ elim (bytes_equal xs ys) [
    | inl q ↦ inl (ap₂ ◌∷◌ p q)
    | inr q ↦ inr (λ e. q (ap tail_of e))
  ]
]

pub append-injective :
    (xs ys : List ℕ) {a b : List ℕ}
    → length xs ≡ length ys
    → xs ++ a ≡ ys ++ b
    → (xs ≡ ys) × (a ≡ b)
append-injective xs ys {a} {b} len e = (
  sym (take-append xs a) ∙ (ap₂ take len e ∙ take-append ys b),
  sym (drop-append xs a) ∙ (ap₂ drop len e ∙ drop-append ys b),
)

-- Fields of a fixed width are told apart, the first with what follows it.
pub field_injective :
    (width n m : ℕ) {a b : List ℕ}
    → n < 256 ^ width
    → m < 256 ^ width
    → be_bytes width n ++ a ≡ be_bytes width m ++ b
    → (n ≡ m) × (a ≡ b)
field_injective width n m hn hm e =
    let (same, rest) =
      append-injective (be_bytes width n) (be_bytes width m)
        (length-be_bytes width n ∙ sym (length-be_bytes width m)) e in
    (sym (be_value-be_bytes width n hn) ∙ (ap be_value same ∙ be_value-be_bytes width m hm), rest)

pub bytes_injective :
    (width n m : ℕ)
    → n < 256 ^ width
    → m < 256 ^ width
    → be_bytes width n ≡ be_bytes width m
    → n ≡ m
bytes_injective width n m hn hm e =
    sym (be_value-be_bytes width n hn) ∙ (ap be_value e ∙ be_value-be_bytes width m hm)

module _ (primitives : Primitives) where
  pub keccak_injective :
      (a b : List ℕ)
      → primitives.keccak256 a ≡ primitives.keccak256 b
      → Collides primitives a b ⊎ (a ≡ b)
  keccak_injective a b e = elim (bytes_equal a b) [
    | inl same ↦ inr same
    | inr different ↦ inl (record { same_hash = e; differ = different })
  ]
