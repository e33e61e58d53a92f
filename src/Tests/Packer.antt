-- ===== src/Tests/Packer.antt =====
-- A packer on byte lists: every part is written in full, and an error does not occur.
use nuklaivm.Prelude.{
  ℕ, ◌+◌, Bool, true, false, none, Result, ok, err, panic, [], ◌∷◌, ◌++◌, length, take, drop, ◌==◌,
}
use nuklaivm.Prelude.Int.{ℤ, pos, negsuc}
use nuklaivm.Bytes.{Bytes, be64, of_be64}
use nuklaivm.Sdk.{Error}
use nuklaivm.Codec.{Writer, Reader}

abbrev bool_byte : Bool → ℕ
bool_byte true = 1
bool_byte false = 0

abbrev int_bytes : ℤ → Bytes
int_bytes (pos n) = be64 n
int_bytes (negsuc n) = be64 n

abbrev pub writer : Writer Bytes Bytes
writer = record {
  bytes_len = λ b. 4 + length b;
  new_writer = λ _ _. [];
  pack_address = λ b w. w ++ b;
  pack_id = λ b w. w ++ b;
  pack_bytes = λ b w. w ++ be64 (length b) ++ b;
  pack_fixed_bytes = λ b w. w ++ b;
  pack_byte = λ b w. w ++ b ∷ [];
  pack_uint64 = λ n w. w ++ be64 n;
  pack_bool = λ b w. w ++ bool_byte b ∷ [];
  new_optional = λ _. [];
  optional_uint64 = λ n w. w ++ be64 n;
  optional_int64 = λ n w. w ++ int_bytes n;
  optional_id = λ b w. w ++ b;
  pack_optional = λ o w. w ++ o;
  bytes = λ w. w;
  writer_err = λ _. none;
}

abbrev number : Result Error ℕ → ℕ
number (ok n) = n
number (err e) = 0
number panic = 0

abbrev first : Bytes → ℕ
first [] = 0
first (x ∷ _) = x

abbrev pub reader : Reader Bytes Bytes
reader = record {
  bytes_len_size = λ n. 4 + n;
  new_reader = λ b _. b;
  unpack_address = λ r. (take 33 r, drop 33 r);
  unpack_id = λ _ r. (take 32 r, drop 32 r);
  unpack_bytes = λ _ _ r.
      (take (number (of_be64 (take 8 r))) (drop 8 r), drop (8 + number (of_be64 (take 8 r))) r);
  unpack_fixed_bytes = λ n r. (take n r, drop n r);
  unpack_byte = λ r. (first r, drop 1 r);
  unpack_uint64 = λ _ r. (number (of_be64 (take 8 r)), drop 8 r);
  unpack_bool = λ r. (first r == 1, drop 1 r);
  optional_reader = λ r. r;
  optional_read_uint64 = λ r. (number (of_be64 (take 8 r)), drop 8 r);
  optional_read_int64 = λ r. (pos (number (of_be64 (take 8 r))), drop 8 r);
  optional_read_id = λ r. (take 32 r, drop 32 r);
  optional_done = λ r. r;
  reader_err = λ _. none;
  empty = λ r. length r == 0;
}
