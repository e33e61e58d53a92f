-- ===== src/Tests/Store.antt =====
-- A key-value state as a list of writes, newest first: it shows that the behaviour asked of the
-- dependencies can be met.
use nuklaivm.Prelude.{
  zero, suc, take, length, length-append, length-replicate, ◌==◌, ◌++◌, replicate, ◌≤◌, ℕ, ◌+◌, ◌-◌,
  ◌^◌, ◌≡◌, ◌≢◌, refl, sym, Option, none, some, List, [], ◌∷◌, Result, ok, err, arith, leb, ltb,
  if◌then◌else◌,
}
use nuklaivm.Bytes.{Bytes, bytes_eq, bytes_eq_refl, bytes_eq-ne}
use nuklaivm.Sdk.{Sdk, IsLawful, Error}

abbrev pub Writes : Type 0
Writes = List (Bytes × Option Bytes)

abbrev found : Option Bytes → Result Error Bytes
found none = err Error.not_found
found (some v) = ok v

abbrev pub read : Writes → Bytes → Result Error Bytes
read [] k = err Error.not_found
read ((j, v) ∷ ws) k = if bytes_eq j k then found v else read ws k

abbrev pub add64 : ℕ → ℕ → Result Error ℕ
add64 a b = if ltb (a + b) (2 ^ 64) then ok (a + b) else err (Error.foreign 1)

abbrev pub sub : ℕ → ℕ → Result Error ℕ
sub a b = if leb b a then ok (a - b) else err (Error.foreign 2)

abbrev pub exactly : ℕ → Bytes → Result Error Bytes
exactly n b = if length b == n then ok b else err (Error.foreign 3)

-- The first `n` bytes, filled up with zeros: a stand-in for a hash.
abbrev pub pad : ℕ → Bytes → Bytes
pad n b = take n (b ++ replicate n 0)

exactly_fits : (n : ℕ) (b : Bytes) → length b ≡ n → exactly n b ≡ ok b
exactly_fits n b h = ground arith

exactly_ok : (n : ℕ) (b c : Bytes) → exactly n b ≡ ok c → (c ≡ b) × (length b ≡ n)
exactly_ok n b c h = ground arith

length-take : (n : ℕ) (xs : Bytes) → n ≤ length xs → length (take n xs) ≡ n
length-take zero xs h = refl
length-take (suc n) [] h = absurd (omega arith)
length-take (suc n) (x ∷ xs) h = omega (arith, length-take n xs (omega arith))

abbrev pub store : Sdk Writes
store = record {
  address_len = 33;
  id_len = 32;
  node_id_len = 20;
  to_id = exactly 32;
  to_node_id = exactly 20;
  hash_id = λ b. pad 32 b;
  add64 = add64;
  sub = sub;
  get_value = read;
  insert = λ k v s. (ok tt, (k, some v) ∷ s);
  remove = λ k s. (ok tt, (k, none) ∷ s);
}

read_self : (k : Bytes) (v : Option Bytes) (s : Writes) → read ((k, v) ∷ s) k ≡ found v
read_self k v s = rw (bytes_eq_refl k) refl

read_other :
    (k : Bytes) (v : Option Bytes) (j : Bytes) (s : Writes) → j ≢ k → read ((k, v) ∷ s) j ≡ read s j
read_other k v j s ne = rw (bytes_eq-ne k j (λ e. ne (sym e))) refl

pub store-IsLawful : IsLawful store
store-IsLawful = record {
  to_id_exact = exactly_fits 32;
  to_id_width = exactly_ok 32;
  to_node_id_width = exactly_ok 20;
  hash_id_width = λ b.
      length-take 32 (b ++ replicate 32 0)
        (omega (arith, length-append b (replicate 32 0), length-replicate {A = ℕ} 32 0));
  add64_fits = λ a b h. ground arith;
  add64_overflow = λ a b h. (Error.foreign 1, ground arith);
  sub_fits = λ a b h. ground arith;
  sub_underflow = λ a b h. (Error.foreign 2, ground arith);
  get-insert = λ k v s h. read_self k (some v) s;
  get-insert_ne = λ k v j s ne. read_other k (some v) j s ne;
  get-remove = λ k s h. read_self k none s;
  get-remove_ne = λ k j s ne. read_other k none j s ne;
}
