-- ===== src/Codec.antt =====
-- codec.Packer of the hypersdk, as a parameter: a writer and a reader whose first error sticks, and
-- their optional parts, which leave zero values out. Nothing here models a line of the repository.
use nuklaivm.Prelude.{ℕ, Bool, Result, ok, err, Option, none, some, M}
use nuklaivm.Prelude.Int.{ℤ}
use nuklaivm.Bytes.{Bytes}
use nuklaivm.Sdk.{Error}

-- A packer that is written.
pub record Writer (W O : Type 0) : Type 0 where
  -- codec.BytesLen
  pub bytes_len : Bytes → ℕ
  -- codec.NewWriter: the initial size and the limit
  pub new_writer : ℕ → ℕ → W
  pub pack_address : Bytes → W → W
  pub pack_id : Bytes → W → W
  pub pack_bytes : Bytes → W → W
  pub pack_fixed_bytes : Bytes → W → W
  pub pack_byte : ℕ → W → W
  pub pack_uint64 : ℕ → W → W
  pub pack_bool : Bool → W → W
  -- codec.NewOptionalWriter, and what is packed in it
  pub new_optional : ℕ → O
  pub optional_uint64 : ℕ → O → O
  pub optional_int64 : ℤ → O → O
  pub optional_id : Bytes → O → O
  pub pack_optional : O → W → W
  pub bytes : W → Bytes
  pub writer_err : W → Option Error

-- A packer that is read. The Booleans are `required`: a zero value is then an error.
pub record Reader (R P : Type 0) : Type 0 where
  -- codec.BytesLenSize
  pub bytes_len_size : ℕ → ℕ
  pub new_reader : Bytes → ℕ → R
  pub unpack_address : R → Bytes × R
  pub unpack_id : Bool → R → Bytes × R
  pub unpack_bytes : ℕ → Bool → R → Bytes × R
  pub unpack_fixed_bytes : ℕ → R → Bytes × R
  pub unpack_byte : R → ℕ × R
  pub unpack_uint64 : Bool → R → ℕ × R
  pub unpack_bool : R → Bool × R
  pub optional_reader : R → P
  pub optional_read_uint64 : P → ℕ × P
  pub optional_read_int64 : P → ℤ × P
  pub optional_read_id : P → Bytes × P
  pub optional_done : P → R
  pub reader_err : R → Option Error
  pub empty : R → Bool

-- `p.Bytes(), p.Err()` and `&x, p.Err()`: the value if there is no error.
abbrev pub unless_error : {A : Type 0} → Option Error → A → Result Error A
unless_error none a = ok a
unless_error (some e) a = err e

-- One read, in a `do` block.
unfoldable pub takes : {R A : Type 0} → (R → A × R) → M R Error A
takes f r = (ok (f r).0, (f r).1)

-- `if err := p.Err(); err != nil { return nil, err }`
unfoldable pub check : {R : Type 0} → (R → Option Error) → M R Error (Unit {0})
check e r = (unless_error (e r) tt, r)

-- `p.Pack…(…)`, one after the other
infixl 5 ◌▹◌
abbrev pub ◌▹◌ : {A B : Type 0} → A → (A → B) → B
x ▹ f = f x
