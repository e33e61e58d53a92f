-- ===== src/Actions/MintAsset.antt =====
-- actions/mint_asset.go
pub mod Effects
use nuklaivm.Prelude.{
  ℕ, [], ◌∷◌, List, M, pure, gets, lift, raise_if, ◌>>=◌, ◌>>◌, ◌==◌, true, not, replicate,
}
use nuklaivm.Bytes.{Bytes, bytes_eq}
use nuklaivm.Sdk.{Sdk}
use nuklaivm.Storage.Keys.{balance_key, asset_key}
use nuklaivm.Storage.Balance.{add_balance}
use nuklaivm.Storage.Asset.{get_asset, set_asset}
use nuklaivm.Actions.Receipt.{
  Rejection, Receipt, Output, reject, receipt, or_reject, require, mint_asset_compute_units,
}

pub record MintAsset : Type 0 where
  pub to : Bytes
  pub asset : Bytes
  pub value : ℕ

unfoldable pub state_keys : MintAsset → List Bytes
state_keys m = asset_key m.asset ∷ balance_key m.to m.asset ∷ []

abbrev pub max_compute_units : ℕ
max_compute_units = mint_asset_compute_units

abbrev refuse : Output → Rejection
refuse = reject mint_asset_compute_units

module _ {S : Type 0} (sdk : Sdk S) where
  open sdk use {id_len, add64}

  unfoldable pub execute : MintAsset → Bytes → M S Rejection Receipt
  execute m actor = do
    raise_if (bytes_eq m.asset (replicate id_len 0)) (refuse Output.output_asset_is_native)
    raise_if (m.value == 0) (refuse Output.output_value_zero)
    found ← or_reject mint_asset_compute_units (gets (get_asset sdk m.asset))
    a ← require (refuse Output.output_asset_missing) found
    raise_if a.warp (refuse Output.output_warp_asset)
    raise_if (not (bytes_eq a.owner actor)) (refuse Output.output_wrong_owner)
    new_supply ← or_reject mint_asset_compute_units (lift (add64 a.supply m.value))
    or_reject mint_asset_compute_units
        (set_asset sdk m.asset (record a { supply = new_supply; owner = actor }))
    or_reject mint_asset_compute_units (add_balance sdk m.to m.asset m.value true)
    pure (receipt mint_asset_compute_units)
