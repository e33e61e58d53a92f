-- ===== src/Bytes.antt =====
-- Byte strings and their big-endian numbers (Go's encoding/binary), as the storage layer uses them.
-- A byte stands as a number that is read modulo 256.
pub mod Slices
use nuklaivm.Prelude.{
  ℕ, ◌+◌, ◌*◌, ◌/◌, ◌%◌, ◌^◌, ◌<◌, ◌≡◌, refl, ap, Bool, true, false, ◌&&◌, List, [], ◌∷◌, ◌++◌,
  Result, ok, panic, arith, ◌==◌, length, Bool-cases, inl, inr, ◌≢◌,
}

abbrev pub Bytes : Type 0
Bytes = List ℕ

-- `==` of byte arrays, `bytes.Equal`
unfoldable pub bytes_eq : Bytes → Bytes → Bool
bytes_eq [] [] = true
bytes_eq [] (y ∷ ys) = false
bytes_eq (x ∷ xs) [] = false
bytes_eq (x ∷ xs) (y ∷ ys) = x == y && bytes_eq xs ys

pub bytes_eq-eq : (xs ys : Bytes) → bytes_eq xs ys ≡ true → xs ≡ ys
unfolding bytes_eq
bytes_eq-eq [] [] h = refl
bytes_eq-eq [] (y ∷ ys) h = cc
bytes_eq-eq (x ∷ xs) [] h = cc
bytes_eq-eq (x ∷ xs) (y ∷ ys) h = ground (arith, bytes_eq-eq xs ys)

pub bytes_eq_refl : (xs : Bytes) → bytes_eq xs xs ≡ true
unfolding bytes_eq
bytes_eq_refl [] = refl
bytes_eq_refl (x ∷ xs) = ground (arith, bytes_eq_refl xs)

-- uint16(n), big-endian
unfoldable pub be16 : ℕ → Bytes
be16 n = (n / 2 ^ 8 % 256) ∷ (n % 256) ∷ []

-- A 64-bit number, big-endian
unfoldable pub be64 : ℕ → Bytes
be64 n =
    (n / 2 ^ 56 % 256)
    ∷ (n / 2 ^ 48 % 256)
    ∷ (n / 2 ^ 40 % 256)
    ∷ (n / 2 ^ 32 % 256)
    ∷ (n / 2 ^ 24 % 256)
    ∷ (n / 2 ^ 16 % 256)
    ∷ (n / 2 ^ 8 % 256)
    ∷ (n % 256)
    ∷ []

-- `binary.BigEndian.Uint16`: a shorter slice panics.
unfoldable pub of_be16 : {E : Type 0} → Bytes → Result E ℕ
of_be16 (a ∷ b ∷ _) = ok (a % 256 * 2 ^ 8 + b % 256)
of_be16 _ = panic

-- `binary.BigEndian.Uint64`
unfoldable pub of_be64 : {E : Type 0} → Bytes → Result E ℕ
of_be64 (a ∷ b ∷ c ∷ d ∷ e ∷ f ∷ g ∷ h ∷ _) = ok (
    a % 256 * 2 ^ 56
    + b % 256 * 2 ^ 48
    + c % 256 * 2 ^ 40
    + d % 256 * 2 ^ 32
    + e % 256 * 2 ^ 24
    + f % 256 * 2 ^ 16
    + g % 256 * 2 ^ 8
    + h % 256)
of_be64 _ = panic

be64_digits :
    (n : ℕ)
    → n < 2 ^ 64
    → n / 2 ^ 56 % 256 % 256 * 2 ^ 56
        + n / 2 ^ 48 % 256 % 256 * 2 ^ 48
        + n / 2 ^ 40 % 256 % 256 * 2 ^ 40
        + n / 2 ^ 32 % 256 % 256 * 2 ^ 32
        + n / 2 ^ 24 % 256 % 256 * 2 ^ 24
        + n / 2 ^ 16 % 256 % 256 * 2 ^ 16
        + n / 2 ^ 8 % 256 % 256 * 2 ^ 8
        + n % 256 % 256
      ≡ n
be64_digits n h = omega arith

-- What was written as a 64-bit number is read back, whatever follows it.
pub of_be64-be64 :
    {E : Type 0} (n : ℕ) (rest : Bytes) → n < 2 ^ 64 → of_be64 {E = E} (be64 n ++ rest) ≡ ok n
unfolding of_be64 be64
of_be64-be64 n rest h = ap ok (be64_digits n h)

pub of_be16-be16 :
    {E : Type 0} (n : ℕ) (rest : Bytes) → n < 2 ^ 16 → of_be16 {E = E} (be16 n ++ rest) ≡ ok n
unfolding of_be16 be16
of_be16-be16 n rest h = ap ok (omega arith)

-- Every number that is read fits a uint64.
pub of_be64-lt : {E : Type 0} (v : Bytes) {n : ℕ} → of_be64 {E = E} v ≡ ok n → n < 2 ^ 64
unfolding of_be64
of_be64-lt [] h = cc
of_be64-lt (a ∷ []) h = cc
of_be64-lt (a ∷ b ∷ []) h = cc
of_be64-lt (a ∷ b ∷ c ∷ []) h = cc
of_be64-lt (a ∷ b ∷ c ∷ d ∷ []) h = cc
of_be64-lt (a ∷ b ∷ c ∷ d ∷ e ∷ []) h = cc
of_be64-lt (a ∷ b ∷ c ∷ d ∷ e ∷ f ∷ []) h = cc
of_be64-lt (a ∷ b ∷ c ∷ d ∷ e ∷ f ∷ g ∷ []) h = cc
of_be64-lt (a ∷ b ∷ c ∷ d ∷ e ∷ f ∷ g ∷ k ∷ r) h = ground arith

pub length-be64 : (n : ℕ) → length (be64 n) ≡ 8
unfolding be64
length-be64 n = refl

pub length-be16 : (n : ℕ) → length (be16 n) ≡ 2
unfolding be16
length-be16 n = refl

pub bytes_eq-ne : (xs ys : Bytes) → xs ≢ ys → bytes_eq xs ys ≡ false
bytes_eq-ne xs ys ne = elim (Bool-cases (bytes_eq xs ys)) [
  | inl same ↦ absurd (ne (bytes_eq-eq xs ys same))
  | inr other ↦ other
]

pub of_be64_alone : {E : Type 0} (n : ℕ) → n < 2 ^ 64 → of_be64 {E = E} (be64 n) ≡ ok n
unfolding be64
of_be64_alone n h = of_be64-be64 n [] h
