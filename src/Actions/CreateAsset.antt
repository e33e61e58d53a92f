-- ===== src/Actions/CreateAsset.antt =====
-- actions/create_asset.go, with the limits of actions/warp_transfer.go
pub mod Effects
use nuklaivm.Prelude.{ℕ, [], ◌∷◌, List, M, pure, raise_if, ◌>>=◌, ◌>>◌, ◌==◌, ltb, false, length}
use nuklaivm.Bytes.{Bytes}
use nuklaivm.Sdk.{Sdk}
use nuklaivm.Storage.Keys.{asset_key}
use nuklaivm.Storage.Asset.{Asset, set_asset}
use nuklaivm.Actions.WarpTransfer.{max_symbol_size}
use nuklaivm.Actions.Receipt.{
  Rejection, Receipt, Output, reject, receipt, or_reject, create_asset_compute_units,
}

abbrev pub max_metadata_size : ℕ
max_metadata_size = 256

abbrev pub max_decimals : ℕ
max_decimals = 9

pub record CreateAsset : Type 0 where
  pub symbol : Bytes
  pub decimals : ℕ
  pub metadata : Bytes

unfoldable pub state_keys : Bytes → List Bytes
state_keys tx_id = asset_key tx_id ∷ []

abbrev pub max_compute_units : ℕ
max_compute_units = create_asset_compute_units

abbrev refuse : Output → Rejection
refuse = reject create_asset_compute_units

-- The asset that an accepted action stores.
abbrev pub created : CreateAsset → Bytes → Asset
created c actor = record {
  symbol = c.symbol;
  decimals = c.decimals;
  metadata = c.metadata;
  supply = 0;
  owner = actor;
  warp = false;
}

module _ {S : Type 0} (sdk : Sdk S) where
  unfoldable pub execute : CreateAsset → Bytes → Bytes → M S Rejection Receipt
  execute c actor tx_id = do
    raise_if (length c.symbol == 0) (refuse Output.output_symbol_empty)
    raise_if (ltb max_symbol_size (length c.symbol)) (refuse Output.output_symbol_too_large)
    raise_if (ltb max_decimals c.decimals) (refuse Output.output_decimals_too_large)
    raise_if (length c.metadata == 0) (refuse Output.output_metadata_empty)
    raise_if (ltb max_metadata_size (length c.metadata)) (refuse Output.output_metadata_too_large)
    or_reject create_asset_compute_units (set_asset sdk tx_id (created c actor))
    pure (receipt create_asset_compute_units)
