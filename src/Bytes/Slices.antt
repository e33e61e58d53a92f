-- ===== src/Bytes/Slices.antt =====
-- Go's slice expressions and `copy` on byte strings, with the panics of indices out of range,
-- and how they read a string that was put together part by part.
use nuklaivm.Prelude.{
  ℕ, ◌+◌, ◌-◌, ◌≡◌, refl, sym, ap, ◌∙◌, ◌&&◌, [], ◌∷◌, ◌++◌, Result, ok, panic, arith, leb,
  if◌then◌else◌, length, take, drop, replicate, length-append, take-append, drop-append, drop-drop,
}
use nuklaivm.Bytes.{Bytes}
use mathlib.Core.List.{append-nil}

-- v[a:b]
unfoldable pub slice : {E : Type 0} → ℕ → ℕ → Bytes → Result E Bytes
slice a b v = if leb a b && leb b (length v) then ok (take (b - a) (drop a v)) else panic

-- v[a:]
unfoldable pub slice_from : {E : Type 0} → ℕ → Bytes → Result E Bytes
slice_from a v = if leb a (length v) then ok (drop a v) else panic

first_or_panic : {E : Type 0} → Bytes → Result E ℕ
first_or_panic [] = panic
first_or_panic (x ∷ _) = ok x

-- v[a]
unfoldable pub index : {E : Type 0} → ℕ → Bytes → Result E ℕ
unfolding first_or_panic
index a v = first_or_panic (drop a v)

-- copy(array[:], v) into an array of `n` zeros
unfoldable pub copy_into : ℕ → Bytes → Bytes
copy_into n v = take n v ++ replicate (n - length v) 0

-- The part `w` of `v` begins at offset `n` and goes to the end.
abbrev pub At : ℕ → Bytes → Bytes → Type 0
At n w v = (drop n v ≡ w) × (n + length w ≡ length v)

pub At-start : (v : Bytes) → At 0 v v
At-start v = (refl, omega arith)

pub At-step : (n k : ℕ) (xs w v : Bytes) → At n (xs ++ w) v → length xs ≡ k → At (n + k) w v
At-step n k xs w v (at, len) e =
    (drop-drop n k v ∙ ap (drop k) at ∙ drop-append k xs w e, omega (arith, length-append xs w))

pub slice-At :
    {E : Type 0} (n m : ℕ) (xs w v : Bytes)
    → At n (xs ++ w) v
    → n + length xs ≡ m
    → slice {E = E} n m v ≡ ok xs
unfolding slice
slice-At n m xs w v (at, len) e =
    ground (arith, length-append xs w, ap (take (m - n)) at, take-append (m - n) xs w (omega arith))

pub slice_from-At : {E : Type 0} (n : ℕ) (w v : Bytes) → At n w v → slice_from {E = E} n v ≡ ok w
unfolding slice_from
slice_from-At n w v (at, len) = ground arith

pub index-At : {E : Type 0} (n x : ℕ) (w v : Bytes) → At n (x ∷ w) v → index {E = E} n v ≡ ok x
unfolding index
index-At n x w v (at, len) = rw at

pub copy_into-append : (n : ℕ) (xs w : Bytes) → length xs ≡ n → copy_into n (xs ++ w) ≡ xs
unfolding copy_into
copy_into-append n xs w e =
    ap (λ t. t ++ replicate (n - length (xs ++ w)) 0) (take-append n xs w e)
    ∙ ap (λ k. xs ++ replicate k 0) {x = n - length (xs ++ w)} {y = 0}
        (omega (arith, length-append xs w))
    ∙ append-nil xs

pub copy_into_self : (n : ℕ) (xs : Bytes) → length xs ≡ n → copy_into n xs ≡ xs
copy_into_self n xs e = ap (copy_into n) (sym (append-nil xs)) ∙ copy_into-append n xs [] e
