-- ===== src/Writes/Record.antt =====
-- crates/types/src/storage/writes/mod.rs: the 156 bytes of a state diff record, read back.
use eravm_airbender_verifier.Common.{
  ℕ, ◌+◌, ◌-◌, ◌^◌, ◌≡◌, ◌<◌, refl, ap, ◌∙◌, some, List, [], ◌∷◌, ◌++◌, length, take, drop, arith,
  length-append, take-append, zero, suc, eq→==,
}
use eravm_airbender_verifier.Bytes.{be_bytes}
use eravm_airbender_verifier.Bytes.Values.{length-be_bytes, be_value-be_bytes}
use eravm_airbender_verifier.Writes.Diffs.{StateDiffRecord, encode, try_from_slice, slice}

-- The ranges of the record's field types.
pub record IsRecord (r : StateDiffRecord) : Type 0 where
  pub address_160 : r.address < 256 ^ 20
  pub key_256 : r.key < 256 ^ 32
  pub derived_32 : length r.derived_key ≡ 32
  pub index_64 : r.enumeration_index < 256 ^ 8
  pub initial_256 : r.initial_value < 256 ^ 32
  pub final_256 : r.final_value < 256 ^ 32

take-length : (n : ℕ) (xs ys : List ℕ) → length xs ≡ n → take n (xs ++ ys) ≡ xs
take-length n xs ys e = rw (← e, take-append xs ys)

take_all : (n : ℕ) (xs : List ℕ) → length xs ≡ n → take n xs ≡ xs
take_all zero [] e = refl
take_all zero (x ∷ xs) e = absurd (omega (arith, e))
take_all (suc n) [] e = refl
take_all (suc n) (x ∷ xs) e = rw (take_all n xs (omega (arith, e)))

drop-length : (n k : ℕ) (xs ys : List ℕ) → length xs ≡ n → drop (n + k) (xs ++ ys) ≡ drop k ys
drop-length n k [] ys e = ap (λ m. drop m ys) (omega (arith, e))
drop-length zero k (x ∷ xs) ys e = absurd (omega (arith, e))
drop-length (suc n) k (x ∷ xs) ys e =
    ap (λ m. drop m (x ∷ xs ++ ys)) step ∙ drop-length n k xs ys (omega (arith, e))
  where
    step : suc n + k ≡ suc (n + k)
    step = omega arith

-- The first field, and what stands after it.
slice_first : (n : ℕ) (xs ys : List ℕ) → length xs ≡ n → slice 0 n (xs ++ ys) ≡ xs
slice_first n xs ys e = ap (λ m. take m (xs ++ ys)) (omega arith) ∙ take-length n xs ys e

slice_all : (n : ℕ) (xs : List ℕ) → length xs ≡ n → slice 0 n xs ≡ xs
slice_all n xs e = ap (λ m. take m xs) (omega arith) ∙ take_all n xs e

slice_after :
    (n from to : ℕ) (xs ys : List ℕ)
    → length xs ≡ n
    → slice (n + from) (n + to) (xs ++ ys) ≡ slice from to ys
slice_after n from to xs ys e =
    ap (λ m. take m (drop (n + from) (xs ++ ys))) count
    ∙ ap (take (to - from)) (drop-length n from xs ys e)
  where
    count : (n + to) - (n + from) ≡ to - from
    count = omega arith

-- Six strings in a row, and the slice that each one is.
module _ (a b c d e f : List ℕ) (la : length a ≡ 20) (lb : length b ≡ 32) (lc : length c ≡ 32)
    (ld : length d ≡ 8) (le : length e ≡ 32) (lf : length f ≡ 32) where
  abbrev six : List ℕ
  six = a ++ (b ++ (c ++ (d ++ (e ++ f))))

  length-six : length six ≡ 156
  length-six =
      let l₁ = length-append e f in
      let l₂ = length-append d (e ++ f) in
      let l₃ = length-append c (d ++ (e ++ f)) in
      let l₄ = length-append b (c ++ (d ++ (e ++ f))) in
      let l₅ = length-append a (b ++ (c ++ (d ++ (e ++ f)))) in omega (arith, l₁, l₂, l₃, l₄, l₅)

  slice_b : slice 20 52 six ≡ b
  slice_b = slice_after 20 0 32 a _ la ∙ slice_first 32 b _ lb

  slice_c : slice 52 84 six ≡ c
  slice_c = slice_after 20 32 64 a _ la ∙ slice_after 32 0 32 b _ lb ∙ slice_first 32 c _ lc

  slice_d : slice 84 92 six ≡ d
  slice_d =
      slice_after 20 64 72 a _ la
      ∙ slice_after 32 32 40 b _ lb
      ∙ slice_after 32 0 8 c _ lc
      ∙ slice_first 8 d _ ld

  slice_e : slice 92 124 six ≡ e
  slice_e =
      slice_after 20 72 104 a _ la
      ∙ slice_after 32 40 72 b _ lb
      ∙ slice_after 32 8 40 c _ lc
      ∙ slice_after 8 0 32 d _ ld
      ∙ slice_first 32 e _ le

  slice_f : slice 124 156 six ≡ f
  slice_f =
      slice_after 20 104 136 a _ la
      ∙ slice_after 32 72 104 b _ lb
      ∙ slice_after 32 40 72 c _ lc
      ∙ slice_after 8 32 64 d _ ld
      ∙ slice_after 32 0 32 e _ le
      ∙ slice_all 32 f lf

-- A record is read back from its 156 bytes, its fields in the ranges of their types.
pub try_from_slice-encode : (r : StateDiffRecord) → IsRecord r → try_from_slice (encode r) ≡ some r
unfolding try_from_slice encode
try_from_slice-encode r h =
    let a = be_bytes 20 r.address in
    let b = be_bytes 32 r.key in
    let c = r.derived_key in
    let d = be_bytes 8 r.enumeration_index in
    let e = be_bytes 32 r.initial_value in
    let f = be_bytes 32 r.final_value in
    let la = length-be_bytes 20 r.address in
    let lb = length-be_bytes 32 r.key in
    let lc = h.derived_32 in
    let ld = length-be_bytes 8 r.enumeration_index in
    let le = length-be_bytes 32 r.initial_value in
    let lf = length-be_bytes 32 r.final_value in
    rw (
      eq→== (length (six a b c d e f la lb lc ld le lf)) 156
          (length-six a b c d e f la lb lc ld le lf),
      slice_first 20 a (b ++ (c ++ (d ++ (e ++ f)))) la,
      slice_b a b c d e f la lb lc ld le lf,
      slice_c a b c d e f la lb lc ld le lf,
      slice_d a b c d e f la lb lc ld le lf,
      slice_e a b c d e f la lb lc ld le lf,
      slice_f a b c d e f la lb lc ld le lf,
      be_value-be_bytes 20 r.address h.address_160,
      be_value-be_bytes 32 r.key h.key_256,
      be_value-be_bytes 8 r.enumeration_index h.index_64,
      be_value-be_bytes 32 r.initial_value h.initial_256,
      be_value-be_bytes 32 r.final_value h.final_256,
    )
