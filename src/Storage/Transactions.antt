-- ===== src/Storage/Transactions.antt =====
-- Transactions of storage/storage.go: what is stored of one, and reading it back. The fee dimensions
-- are bytes of a fixed width (chain.Dimensions), with UnpackDimensions a parameter of the read.
use nuklaivm.Prelude.{
  ℕ, ◌+◌, ◌^◌, ◌<◌, ◌≡◌, refl, ap, ◌∙◌, Bool, true, false, not, none, some, Option, [], ◌∷◌, ◌++◌,
  Result, ok, err, panic, M, ◌==◌, length,
}
use nuklaivm.Prelude.Decode.{◌>>=◌}
use nuklaivm.Bytes.{Bytes, be64, of_be64, of_be64-be64, of_be64_alone, length-be64}
use nuklaivm.Bytes.Slices.{
  slice, slice_from, index, At, At-start, At-step, slice-At, slice_from-At, index-At,
}
use nuklaivm.Sdk.{Error}
use nuklaivm.Storage.Keys.{tx_key}

-- What GetTransaction reports of a transaction that is there. `t` is the int64 as a uint64.
pub record Transaction : Type 0 where
  pub timestamp : ℕ
  pub success : Bool
  pub units : Bytes
  pub fee : ℕ

abbrev success_byte : Bool → ℕ
success_byte true = 0x1
success_byte false = 0x0

-- The value of StoreTransaction.
unfoldable pub encode_transaction : Transaction → Bytes
encode_transaction t = be64 t.timestamp ++ (success_byte t.success ∷ (t.units ++ be64 t.fee))

-- The metadata database is a parameter: `put` and, below, `get`.
unfoldable pub store_transaction :
    {D E : Type 0} → (Bytes → Bytes → M D E (Unit {0})) → Bytes → Transaction → M D E (Unit {0})
store_transaction put id t = put (tx_key id) (encode_transaction t)

module _ (dimensions_len : ℕ) (unpack : Bytes → Result Error Bytes) where
  unfoldable pub decode_transaction : Bytes → Result Error Transaction
  decode_transaction v = do
    timestamp ← of_be64 v
    flag ← index 8 v
    packed ← slice 9 (9 + dimensions_len) v
    units ← unpack packed
    rest ← slice_from (9 + dimensions_len) v
    fee ← of_be64 rest
    ok (record { timestamp = timestamp; success = not (flag == 0x0); units = units; fee = fee })

  unfoldable pub inner_get_transaction : Result Error Bytes → Result Error (Option Transaction)
  unfolding decode_transaction
  inner_get_transaction (err Error.not_found) = ok none
  inner_get_transaction (err e) = err e
  inner_get_transaction panic = panic
  inner_get_transaction (ok v) = decode_transaction v >>= λ t. ok (some t)

  unfoldable pub get_transaction :
      {D : Type 0}
      → (D → Bytes → Result Error Bytes)
      → Bytes
      → D
      → Result Error (Option Transaction)
  unfolding inner_get_transaction
  get_transaction get id db = inner_get_transaction (get db (tx_key id))

  flag_read : (b : Bool) → not (success_byte b == 0x0) ≡ b
  flag_read true = refl
  flag_read false = refl

  decode-encode_transaction :
      (t : Transaction)
      → t.timestamp < 2 ^ 64
      → t.fee < 2 ^ 64
      → length t.units ≡ dimensions_len
      → unpack t.units ≡ ok t.units
      → decode_transaction (encode_transaction t) ≡ ok t
  unfolding decode_transaction encode_transaction
  decode-encode_transaction t time_fits fee_fits width units_back =
      let w3 : Bytes = be64 t.fee in
      let w2 : Bytes = t.units ++ w3 in
      let w1 : Bytes = success_byte t.success ∷ w2 in
      let v : Bytes = be64 t.timestamp ++ w1 in
      let a1 : At 8 w1 v =
        At-step 0 8 (be64 t.timestamp) w1 v (At-start v) (length-be64 t.timestamp) in
      let a2 : At (8 + 1) w2 v = At-step 8 1 (success_byte t.success ∷ []) w2 v a1 refl in
      let a3 : At (9 + dimensions_len) w3 v = At-step 9 dimensions_len t.units w3 v a2 width in
      rw
        (
          of_be64-be64 {E = Error} t.timestamp w1 time_fits,
          index-At {E = Error} 8 (success_byte t.success) w2 v a1,
          slice-At {E = Error} 9 (9 + dimensions_len) t.units w3 v a2 (ap (◌+◌ 9) width),
          units_back,
          slice_from-At {E = Error} (9 + dimensions_len) w3 v a3,
          of_be64_alone {E = Error} t.fee fee_fits,
          flag_read t.success,
        )
        refl

  -- What StoreTransaction writes, GetTransaction reads back whole, when the dimensions have their
  -- width and unpack to themselves, and the database reads back what it has put.
  pub get-store_transaction :
      {D : Type 0} (get : D → Bytes → Result Error Bytes)
      (put : Bytes → Bytes → M D Error (Unit {0})) (id : Bytes) (t : Transaction) (db : D)
      → ((k v : Bytes) (d : D) → (put k v d).0 ≡ ok tt → get (put k v d).1 k ≡ ok v)
      → t.timestamp < 2 ^ 64
      → t.fee < 2 ^ 64
      → length t.units ≡ dimensions_len
      → unpack t.units ≡ ok t.units
      → (store_transaction put id t db).0 ≡ ok tt
      → get_transaction get id (store_transaction put id t db).1 ≡ ok (some t)
  unfolding get_transaction store_transaction inner_get_transaction
  get-store_transaction get put id t db law time_fits fee_fits width units_back done =
      ap inner_get_transaction (law (tx_key id) (encode_transaction t) db done)
      ∙ ap (λ r. r >>= λ x. ok (some x))
          (decode-encode_transaction t time_fits fee_fits width units_back)
