-- ===== src/Actions/WarpTransfer.antt =====
-- actions/warp_transfer.go
use nuklaivm.Prelude.{
  ℕ, ◌+◌, Bool, true, false, not, Result, ok, err, panic, M, pure, raise_if, ◌>>=◌, ◌>>◌,
  if◌then◌else◌, ltb, ◌==◌, ◌++◌, replicate,
}
use nuklaivm.Prelude.Int.{ℤ, is_negative, is_zero}
use nuklaivm.Bytes.{Bytes, bytes_eq}
use nuklaivm.Sdk.{Sdk, Error}
use nuklaivm.Codec.{Writer, Reader, unless_error, takes, check, ◌▹◌}

abbrev pub max_symbol_size : ℕ
max_symbol_size = 8

pub record WarpTransfer : Type 0 where
  pub to : Bytes
  pub symbol : Bytes
  pub decimals : ℕ
  pub asset : Bytes
  pub value : ℕ
  pub return : Bool
  pub reward : ℕ
  pub swap_in : ℕ
  pub asset_out : Bytes
  pub swap_out : ℕ
  pub swap_expiry : ℤ
  pub tx_id : Bytes
  pub destination_chain_id : Bytes

-- The optional part of a transfer.
pub record Swap : Type 0 where
  pub reward : ℕ
  pub swap_in : ℕ
  pub asset_out : Bytes
  pub swap_out : ℕ
  pub swap_expiry : ℤ

-- `empty_id` is ids.Empty.
unfoldable pub valid_swap_params : Bytes → ℕ → ℕ → Bytes → ℕ → ℤ → Bool
valid_swap_params empty_id value swap_in asset_out swap_out swap_expiry =
    if is_negative swap_expiry
    then false
    else if ltb value swap_in
    then false
    else if ltb 0 swap_in
    then not (swap_out == 0)
    else if not (bytes_eq asset_out empty_id)
    then false
    else if not (swap_out == 0)
    then false
    else if not (is_zero swap_expiry)
    then false
    else true

module _ {S : Type 0} (sdk : Sdk S) where
  open sdk use {address_len, id_len, hash_id}

  -- Two IDs are copied into an array of twice their width.
  unfoldable pub imported_asset_metadata : Bytes → Bytes → Bytes
  imported_asset_metadata asset_id source_chain_id = asset_id ++ source_chain_id

  unfoldable pub imported_asset_id : Bytes → Bytes → Bytes
  unfolding imported_asset_metadata
  imported_asset_id asset_id source_chain_id =
      hash_id (imported_asset_metadata asset_id source_chain_id)

  -- The size of a message whose symbol takes `symbol_size` bytes.
  abbrev pub size_with : ℕ → ℕ
  size_with symbol_size =
      address_len + symbol_size + 1 + id_len + 8 + 1 + 8 + 8 + 8 + id_len + 8 + 8 + id_len + id_len

  module _ {W O : Type 0} (writer : Writer W O) where
    open writer use {
      bytes_len, new_writer, pack_address, pack_id, pack_bytes, pack_byte, pack_uint64, pack_bool,
      new_optional, optional_uint64, optional_int64, optional_id, pack_optional, bytes, writer_err,
    }

    unfoldable pub size : WarpTransfer → ℕ
    size w = size_with (bytes_len w.symbol)

    -- The optional part, as ExportAsset packs it too.
    unfoldable pub pack_swap : ℕ → ℕ → Bytes → ℕ → ℤ → W → W
    pack_swap reward swap_in asset_out swap_out swap_expiry = pack_optional (
        new_optional (8 + 8 + 8 + id_len + 8)
        ▹ optional_uint64 reward
        ▹ optional_uint64 swap_in
        ▹ optional_id asset_out
        ▹ optional_uint64 swap_out
        ▹ optional_int64 swap_expiry)

    unfoldable pub marshal : WarpTransfer → Result Error Bytes
    unfolding size pack_swap
    marshal w =
        let p =
          new_writer (size w) (size w)
          ▹ pack_address w.to
          ▹ pack_bytes w.symbol
          ▹ pack_byte w.decimals
          ▹ pack_id w.asset
          ▹ pack_uint64 w.value
          ▹ pack_bool w.return
          ▹ pack_swap w.reward w.swap_in w.asset_out w.swap_out w.swap_expiry
          ▹ pack_id w.tx_id
          ▹ pack_id w.destination_chain_id in
        unless_error (writer_err p) (bytes p)

  module _ {R P : Type 0} (reader : Reader R P) where
    open reader use {
      bytes_len_size, new_reader, unpack_address, unpack_id, unpack_bytes, unpack_byte,
      unpack_uint64, unpack_bool, optional_reader, optional_read_uint64, optional_read_int64,
      optional_read_id, optional_done, reader_err, empty,
    }

    unfoldable pub unpack_swap : R → Swap × R
    unpack_swap r =
        let (reward, o1) = optional_read_uint64 (optional_reader r) in
        let (swap_in, o2) = optional_read_uint64 o1 in
        let (asset_out, o3) = optional_read_id o2 in
        let (swap_out, o4) = optional_read_uint64 o3 in
        let (swap_expiry, o5) = optional_read_int64 o4 in
        (
          record {
            reward = reward;
            swap_in = swap_in;
            asset_out = asset_out;
            swap_out = swap_out;
            swap_expiry = swap_expiry;
          },
          optional_done o5,
        )

    -- The reads and the checks of the packer.
    unfoldable pub read_transfer : M R Error WarpTransfer
    unfolding unpack_swap
    read_transfer = do
      to ← takes unpack_address
      symbol ← takes (unpack_bytes max_symbol_size true)
      decimals ← takes unpack_byte
      asset ← takes (unpack_id false)
      value ← takes (unpack_uint64 true)
      return ← takes unpack_bool
      swap ← takes unpack_swap
      tx_id ← takes (unpack_id true)
      destination_chain_id ← takes (unpack_id true)
      check reader_err
      finished ← takes (λ r. (empty r, r))
      raise_if (not finished) Error.invalid_object
      pure (record {
        to = to;
        symbol = symbol;
        decimals = decimals;
        asset = asset;
        value = value;
        return = return;
        reward = swap.reward;
        swap_in = swap.swap_in;
        asset_out = swap.asset_out;
        swap_out = swap.swap_out;
        swap_expiry = swap.swap_expiry;
        tx_id = tx_id;
        destination_chain_id = destination_chain_id;
      })

    -- `if !ValidSwapParams(…) { return nil, chain.ErrInvalidObject }`
    abbrev pub with_valid_swap : WarpTransfer → Result Error WarpTransfer
    with_valid_swap w =
        if valid_swap_params (replicate id_len 0) w.value w.swap_in w.asset_out w.swap_out
          w.swap_expiry
        then ok w
        else err Error.invalid_object

    abbrev pub and_then : {A B : Type 0} → Result Error A → (A → Result Error B) → Result Error B
    and_then (ok a) f = f a
    and_then (err e) f = err e
    and_then panic f = panic

    unfoldable pub unmarshal : Bytes → Result Error WarpTransfer
    unfolding read_transfer valid_swap_params
    unmarshal b =
        and_then (read_transfer (new_reader b (size_with (bytes_len_size max_symbol_size)))).0
          with_valid_swap
