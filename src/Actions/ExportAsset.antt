-- ===== src/Actions/ExportAsset.antt =====
-- actions/export_asset.go. A message carries its payload alone; the network fills in the rest.
pub mod Codec
pub mod Effects
pub mod Supply
pub mod Booked
use nuklaivm.Prelude.{
  ℕ, ◌+◌, Bool, true, false, not, Option, none, some, Result, ok, err, List, [], ◌∷◌, M, pure, gets,
  lift, raise_if, ◌>>=◌, ◌>>◌, if◌then◌else◌, ltb, ◌==◌, replicate,
}
use nuklaivm.Prelude.Int.{ℤ}
use nuklaivm.Bytes.{Bytes, bytes_eq}
use nuklaivm.Bytes.Slices.{slice, slice_from}
use nuklaivm.Sdk.{Sdk, Error}
use nuklaivm.Codec.{Writer, ◌▹◌}
use nuklaivm.Storage.Keys.{balance_key, asset_key, loan_key}
use nuklaivm.Storage.Balance.{sub_balance}
use nuklaivm.Storage.Loan.{add_loan}
use nuklaivm.Storage.Asset.{Asset, get_asset, set_asset, delete_asset}
use nuklaivm.Actions.Receipt.{
  Rejection, Receipt, Output, reject, or_reject, require, export_asset_compute_units,
}
use nuklaivm.Actions.WarpTransfer.{WarpTransfer, marshal}

pub record ExportAsset : Type 0 where
  pub to : Bytes
  pub asset : Bytes
  pub value : ℕ
  pub return : Bool
  pub reward : ℕ
  pub swap_in : ℕ
  pub asset_out : Bytes
  pub swap_out : ℕ
  pub swap_expiry : ℤ
  pub destination : Bytes

unfoldable pub state_keys : ExportAsset → Bytes → List Bytes
state_keys e actor =
    if e.return
    then asset_key e.asset ∷ balance_key actor e.asset ∷ []
    else asset_key e.asset ∷ loan_key e.asset e.destination ∷ balance_key actor e.asset ∷ []

abbrev pub max_compute_units : ℕ
max_compute_units = export_asset_compute_units

abbrev refuse : Output → Rejection
refuse = reject export_asset_compute_units

-- The message of an export, for the asset as the receiving chain knows it.
abbrev pub outgoing : ExportAsset → Asset → Bytes → Bytes → WarpTransfer
outgoing e a original tx_id = record {
  to = e.to;
  symbol = a.symbol;
  decimals = a.decimals;
  asset = original;
  value = e.value;
  return = e.return;
  reward = e.reward;
  swap_in = e.swap_in;
  asset_out = e.asset_out;
  swap_out = e.swap_out;
  swap_expiry = e.swap_expiry;
  tx_id = tx_id;
  destination_chain_id = e.destination;
}

abbrev pub sent : Bytes → Receipt
sent payload = record { units = export_asset_compute_units; output = none; message = some payload }

module _ {S W O : Type 0} (sdk : Sdk S) (writer : Writer W O) where
  open sdk use {address_len, id_len, sub, to_id}

  unfoldable pub execute_return : ExportAsset → Bytes → Bytes → M S Rejection Receipt
  execute_return e actor tx_id = do
    found ← or_reject export_asset_compute_units (gets (get_asset sdk e.asset))
    a ← require (refuse Output.output_asset_missing) found
    raise_if (not a.warp) (refuse Output.output_not_warp_asset)
    chain ← lift (slice_from id_len a.metadata)
    allowed_destination ← or_reject export_asset_compute_units (lift (to_id chain))
    raise_if (not (bytes_eq allowed_destination e.destination))
        (refuse Output.output_wrong_destination)
    less_value ← or_reject export_asset_compute_units (lift (sub a.supply e.value))
    new_supply ← or_reject export_asset_compute_units (lift (sub less_value e.reward))
    or_reject export_asset_compute_units (
        if ltb 0 new_supply
        then set_asset sdk e.asset
            (record a { supply = new_supply; owner = replicate address_len 0; warp = true })
        else delete_asset sdk e.asset)
    or_reject export_asset_compute_units (sub_balance sdk actor e.asset e.value)
    or_reject export_asset_compute_units
        (if ltb 0 e.reward then sub_balance sdk actor e.asset e.reward else pure tt)
    id ← lift (slice 0 id_len a.metadata)
    original_asset ← or_reject export_asset_compute_units (lift (to_id id))
    payload ←
        or_reject export_asset_compute_units
          (lift (marshal sdk writer (outgoing e a original_asset tx_id)))
    pure (sent payload)

  unfoldable pub execute_loan : ExportAsset → Bytes → Bytes → M S Rejection Receipt
  execute_loan e actor tx_id = do
    found ← or_reject export_asset_compute_units (gets (get_asset sdk e.asset))
    a ← require (refuse Output.output_asset_missing) found
    raise_if a.warp (refuse Output.output_warp_asset)
    or_reject export_asset_compute_units (add_loan sdk e.asset e.destination e.value)
    or_reject export_asset_compute_units (sub_balance sdk actor e.asset e.value)
    or_reject export_asset_compute_units (
        if ltb 0 e.reward
        then add_loan sdk e.asset e.destination e.reward >> sub_balance sdk actor e.asset e.reward
        else pure tt)
    payload ←
        or_reject export_asset_compute_units
          (lift (marshal sdk writer (outgoing e a e.asset tx_id)))
    pure (sent payload)

  unfoldable pub execute : ExportAsset → Bytes → Bytes → M S Rejection Receipt
  unfolding execute_return execute_loan
  execute e actor tx_id = do
    raise_if (e.value == 0) (refuse Output.output_value_zero)
    raise_if (bytes_eq e.destination (replicate id_len 0)) (refuse Output.output_anycast)
    if e.return then execute_return e actor tx_id else execute_loan e actor tx_id
