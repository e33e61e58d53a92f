-- ===== src/Actions/ExportAsset/Codec.antt =====
-- actions/export_asset.go: Size, Marshal and Unmarshal, and StateKeysMaxChunks.
use nuklaivm.Prelude.{
  ℕ, ◌+◌, true, false, Result, ok, err, List, [], ◌∷◌, M, pure, ◌>>=◌, ◌>>◌, if◌then◌else◌,
  replicate,
}
use nuklaivm.Sdk.{Sdk, Error}
use nuklaivm.Codec.{Writer, Reader, takes, check, ◌▹◌}
use nuklaivm.Storage.Keys.{asset_chunks, balance_chunks, loan_chunks}
use nuklaivm.Actions.WarpTransfer.{pack_swap, unpack_swap, valid_swap_params, and_then}
use nuklaivm.Actions.ExportAsset.{ExportAsset}

unfoldable pub state_keys_max_chunks : ExportAsset → List ℕ
state_keys_max_chunks e =
    if e.return
    then asset_chunks ∷ balance_chunks ∷ []
    else asset_chunks ∷ loan_chunks ∷ balance_chunks ∷ []

module _ {S : Type 0} (sdk : Sdk S) where
  open sdk use {address_len, id_len}

  abbrev pub size : ℕ
  size = address_len + id_len + 8 + 1 + 8 + 8 + 8 + id_len + 8 + 8 + id_len

  module _ {W O : Type 0} (writer : Writer W O) where
    open writer use {pack_address, pack_id, pack_uint64, pack_bool}

    unfoldable pub marshal : ExportAsset → W → W
    unfolding pack_swap
    marshal e p =
        p
        ▹ pack_address e.to
        ▹ pack_id e.asset
        ▹ pack_uint64 e.value
        ▹ pack_bool e.return
        ▹ pack_swap sdk writer e.reward e.swap_in e.asset_out e.swap_out e.swap_expiry
        ▹ pack_id e.destination

  module _ {R P : Type 0} (reader : Reader R P) where
    open reader use {unpack_address, unpack_id, unpack_uint64, unpack_bool, reader_err}

    unfoldable pub read_export : M R Error ExportAsset
    unfolding unpack_swap
    read_export = do
      to ← takes unpack_address
      asset ← takes (unpack_id false)
      value ← takes (unpack_uint64 true)
      return ← takes unpack_bool
      swap ← takes (unpack_swap sdk reader)
      destination ← takes (unpack_id true)
      check reader_err
      pure (record {
        to = to;
        asset = asset;
        value = value;
        return = return;
        reward = swap.reward;
        swap_in = swap.swap_in;
        asset_out = swap.asset_out;
        swap_out = swap.swap_out;
        swap_expiry = swap.swap_expiry;
        destination = destination;
      })

    -- `if !ValidSwapParams(…) { return nil, chain.ErrInvalidObject }`
    abbrev pub with_valid_swap : ExportAsset → Result Error ExportAsset
    with_valid_swap e =
        if valid_swap_params (replicate id_len 0) e.value e.swap_in e.asset_out e.swap_out
          e.swap_expiry
        then ok e
        else err Error.invalid_object

    unfoldable pub unmarshal : R → Result Error ExportAsset
    unfolding read_export valid_swap_params
    unmarshal r = and_then sdk reader (read_export r).0 with_valid_swap
