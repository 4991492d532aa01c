-- ===== src/Bytes/Values.antt =====
-- What a byte string of a number says of the number.
use native.Mathlib.Nat.{pow-suc, mul-le-mul_right, mul_assoc, mul_comm}
use mathlib.Core.Path.{ap₂}
use eravm_airbender_verifier.Common.{
  ℕ, zero, suc, ◌+◌, ◌*◌, ◌/◌, ◌%◌, ◌^◌, ◌≡◌, ◌≤◌, ◌<◌, refl, ap, ◌∙◌, List, [], ◌∷◌, ◌++◌, arith,
  length, length-append, drop,
}
use eravm_airbender_verifier.Bytes.{be_bytes, be_value, be_value_from}

pub length-be_bytes : (width n : ℕ) → length (be_bytes width n) ≡ width
unfolding be_bytes
length-be_bytes zero n = refl
length-be_bytes (suc width) n = omega (
  arith,
  length-be_bytes width (n / 256),
  length-append (be_bytes width (n / 256)) ((n % 256) ∷ []),
)

be_value_from-snoc :
    (acc : ℕ) (bs : List ℕ) (b : ℕ)
    → be_value_from acc (bs ++ b ∷ []) ≡ 256 * be_value_from acc bs + b
unfolding be_value_from
be_value_from-snoc acc [] b = refl
be_value_from-snoc acc (c ∷ bs) b = be_value_from-snoc (256 * acc + c) bs b

-- A number below `256 ^ width` is read back from its `width` bytes.
pub be_value-be_bytes : (width n : ℕ) → n < 256 ^ width → be_value (be_bytes width n) ≡ n
unfolding be_bytes be_value be_value_from
be_value-be_bytes zero n h = omega arith
be_value-be_bytes (suc width) n h =
    let power : 256 ^ suc width ≡ 256 ^ width * 256 = pow-suc 256 width in
    let small : n / 256 < 256 ^ width = omega arith in
    omega (
      arith,
      be_value-be_bytes width (n / 256) small,
      be_value_from-snoc 0 (be_bytes width (n / 256)) (n % 256),
    )

drop-append_le {ℓ} :
    {A : Type ℓ} (k : ℕ) (xs ys : List A) → k ≤ length xs → drop k (xs ++ ys) ≡ drop k xs ++ ys
drop-append_le zero xs ys h = refl
drop-append_le (suc k) [] ys h = absurd (omega (arith, h))
drop-append_le (suc k) (x ∷ xs) ys h = drop-append_le k xs ys (omega arith)

pub drop_all {ℓ} : {A : Type ℓ} (k : ℕ) (xs : List A) → length xs ≤ k → drop k xs ≡ []
drop_all zero [] h = refl
drop_all (suc k) [] h = refl
drop_all zero (x ∷ xs) h = absurd (omega (arith, h))
drop_all (suc k) (x ∷ xs) h = drop_all k xs (omega arith)

-- The low bytes of a number are the last ones.
pub drop-be_bytes :
    (k size width n : ℕ) → width ≡ k + size → drop k (be_bytes width n) ≡ be_bytes size n
unfolding be_bytes
drop-be_bytes k zero width n h =
    drop_all k (be_bytes width n) (omega (arith, length-be_bytes width n))
drop-be_bytes k (suc size) zero n h = absurd (omega (arith, h))
drop-be_bytes k (suc size) (suc width) n h = rw (
  drop-append_le k (be_bytes width (n / 256)) ((n % 256) ∷ [])
      (omega (arith, length-be_bytes width (n / 256))),
  drop-be_bytes k size width (n / 256) (omega arith),
)

-- The numbers of a byte string.
abbrev pub AreBytes : List ℕ → Type 0
AreBytes [] = Unit
AreBytes (b ∷ bs) = (b < 256) × AreBytes bs

pub AreBytes-append : (xs ys : List ℕ) → AreBytes xs → AreBytes ys → AreBytes (xs ++ ys)
AreBytes-append [] ys hx hy = hy
AreBytes-append (x ∷ xs) ys (h, hx) hy = (h, AreBytes-append xs ys hx hy)

pub AreBytes-drop : (k : ℕ) (xs : List ℕ) → AreBytes xs → AreBytes (drop k xs)
AreBytes-drop zero xs h = h
AreBytes-drop (suc k) [] h = h
AreBytes-drop (suc k) (x ∷ xs) (h, hx) = AreBytes-drop k xs hx

pub be_bytes-AreBytes : (width n : ℕ) → AreBytes (be_bytes width n)
unfolding be_bytes
be_bytes-AreBytes zero n = tt
be_bytes-AreBytes (suc width) n =
    AreBytes-append (be_bytes width (n / 256)) ((n % 256) ∷ []) (be_bytes-AreBytes width (n / 256))
      (omega arith, tt)

be_value_from-injective :
    (a b : ℕ) (xs ys : List ℕ)
    → AreBytes xs
    → AreBytes ys
    → length xs ≡ length ys
    → be_value_from a xs ≡ be_value_from b ys
    → (a ≡ b) × (xs ≡ ys)
unfolding be_value_from
be_value_from-injective a b [] [] hx hy len e = (e, refl)
be_value_from-injective a b [] (y ∷ ys) hx hy len e = absurd (omega (arith, len))
be_value_from-injective a b (x ∷ xs) [] hx hy len e = absurd (omega (arith, len))
be_value_from-injective a b (x ∷ xs) (y ∷ ys) (lx, hx) (ly, hy) len e =
    let (same, rest) =
      be_value_from-injective (256 * a + x) (256 * b + y) xs ys hx hy (omega (arith, len)) e in
    (omega (arith, same, lx, ly), ap₂ ◌∷◌ (omega (arith, same, lx, ly)) rest)

-- Byte strings of one length are told apart by their numbers.
pub be_value-injective :
    (xs ys : List ℕ)
    → AreBytes xs
    → AreBytes ys
    → length xs ≡ length ys
    → be_value xs ≡ be_value ys
    → xs ≡ ys
unfolding be_value
be_value-injective xs ys hx hy len e = (be_value_from-injective 0 0 xs ys hx hy len e).1

be_value_from-lt :
    (acc : ℕ) (xs : List ℕ) → AreBytes xs → be_value_from acc xs < (acc + 1) * 256 ^ length xs
unfolding be_value_from
be_value_from-lt acc [] h = omega arith
be_value_from-lt acc (x ∷ xs) (l, h) =
    let rest = be_value_from-lt (256 * acc + x) xs h in
    let power : 256 ^ suc (length xs) ≡ 256 ^ length xs * 256 = pow-suc 256 (length xs) in
    let widen : (256 * acc + x + 1) * 256 ^ length xs ≤ (256 * acc + 256) * 256 ^ length xs =
      mul-le-mul_right (256 ^ length xs) (omega (arith, l)) in
    let grouped : 256 * acc + 256 ≡ (acc + 1) * 256 = omega arith in
    let spread =
      ap (λ n. n * 256 ^ length xs) grouped
      ∙ (mul_assoc (acc + 1) 256 (256 ^ length xs)
          ∙ ap (λ n. (acc + 1) * n) (mul_comm 256 (256 ^ length xs))) in
    rw power (omega (arith, rest, widen, spread))

-- A byte string is read back from its number.
-- Bytes read as a number are below the power of their count.
pub be_value-lt : (xs : List ℕ) → AreBytes xs → be_value xs < 256 ^ length xs
unfolding be_value
be_value-lt xs bytes = omega (arith, be_value_from-lt 0 xs bytes)

pub be_bytes-be_value : (xs : List ℕ) → AreBytes xs → be_bytes (length xs) (be_value xs) ≡ xs
unfolding be_value
be_bytes-be_value xs h =
    be_value-injective _ xs (be_bytes-AreBytes (length xs) (be_value xs)) h
      (length-be_bytes (length xs) (be_value xs))
      (be_value-be_bytes (length xs) (be_value xs) (omega (arith, be_value_from-lt 0 xs h)))
