-- ===== src/Actions/BurnAsset.antt =====
-- actions/burn_asset.go
pub mod Effects
use nuklaivm.Prelude.{ℕ, [], ◌∷◌, List, M, pure, gets, lift, raise_if, ◌>>=◌, ◌>>◌, ◌==◌}
use nuklaivm.Bytes.{Bytes}
use nuklaivm.Sdk.{Sdk}
use nuklaivm.Storage.Keys.{balance_key, asset_key}
use nuklaivm.Storage.Balance.{sub_balance}
use nuklaivm.Storage.Asset.{get_asset, set_asset}
use nuklaivm.Actions.Receipt.{
  Rejection, Receipt, Output, reject, receipt, or_reject, require, burn_asset_compute_units,
}

pub record BurnAsset : Type 0 where
  pub asset : Bytes
  pub value : ℕ

unfoldable pub state_keys : BurnAsset → Bytes → List Bytes
state_keys b actor = asset_key b.asset ∷ balance_key actor b.asset ∷ []

abbrev pub max_compute_units : ℕ
max_compute_units = burn_asset_compute_units

abbrev refuse : Output → Rejection
refuse = reject burn_asset_compute_units

module _ {S : Type 0} (sdk : Sdk S) where
  unfoldable pub execute : BurnAsset → Bytes → M S Rejection Receipt
  execute b actor = do
    raise_if (b.value == 0) (refuse Output.output_value_zero)
    or_reject burn_asset_compute_units (sub_balance sdk actor b.asset b.value)
    found ← or_reject burn_asset_compute_units (gets (get_asset sdk b.asset))
    a ← require (refuse Output.output_asset_missing) found
    new_supply ← or_reject burn_asset_compute_units (lift (sdk.sub a.supply b.value))
    or_reject burn_asset_compute_units (set_asset sdk b.asset (record a { supply = new_supply }))
    pure (receipt burn_asset_compute_units)
