-- ===== src/Actions/ImportAsset.antt =====
-- actions/import_asset.go. executeMint and executeReturn answer with an output; every failure's
-- output is taken to be non-empty.
pub mod Codec
pub mod Effects
pub mod Supply
pub mod Booked
pub mod Minted
use nuklaivm.Prelude.{
  ℕ, ◌+◌, Bool, true, false, not, ◌&&◌, Option, none, some, Result, ok, err, List, [], ◌∷◌, ◌++◌, M,
  pure, gets, lift, raise_if, raise, or_fail, ◌>>=◌, ◌>>◌, if◌then◌else◌, ltb, ◌==◌, replicate,
}
use nuklaivm.Prelude.Int.{ℤ, gtb}
use nuklaivm.Bytes.{Bytes, bytes_eq}
use nuklaivm.Sdk.{Sdk, Error}
use nuklaivm.Storage.Keys.{balance_key, asset_key, loan_key}
use nuklaivm.Storage.Balance.{sub_balance, add_balance}
use nuklaivm.Storage.Loan.{sub_loan}
use nuklaivm.Storage.Asset.{Asset, get_asset, set_asset}
use nuklaivm.Actions.Receipt.{
  Rejection, Receipt, Output, reject, receipt, or_reject, import_asset_compute_units,
}
use nuklaivm.Actions.WarpTransfer.{WarpTransfer, imported_asset_id, imported_asset_metadata}

-- The action with its message: the transfer in it, and warpMessage.SourceChainID.
pub record ImportAsset : Type 0 where
  pub fill : Bool
  pub warp_transfer : WarpTransfer
  pub source_chain_id : Bytes

abbrev pub max_compute_units : ℕ
max_compute_units = import_asset_compute_units

abbrev refuse : Output → Rejection
refuse = reject import_asset_compute_units

-- A call of the storage layer that answers with `utils.ErrBytes(err)`.
abbrev pub or_output : {S A : Type 0} → M S Error A → M S Output A
or_output m = or_fail Output.err_bytes m

-- `reject` with the output
abbrev with_output : Output → Rejection
with_output o = refuse o

module _ {S : Type 0} (sdk : Sdk S) where
  open sdk use {address_len, add64}

  -- The asset on this chain.
  unfoldable pub asset_in : ImportAsset → Bytes
  unfolding imported_asset_id
  asset_in i =
      if i.warp_transfer.return
      then i.warp_transfer.asset
      else imported_asset_id sdk i.warp_transfer.asset i.source_chain_id

  unfoldable pub state_keys : ImportAsset → Bytes → List Bytes
  unfolding asset_in
  state_keys i actor =
      let w = i.warp_transfer in
      let asset = asset_in i in
      (if w.return
        then asset_key asset ∷ loan_key asset i.source_chain_id ∷ balance_key w.to asset ∷ []
        else asset_key asset ∷ balance_key w.to asset ∷ [])
      ++ ((if ltb 0 w.reward then balance_key actor asset ∷ [] else [])
          ++ (if i.fill && ltb 0 w.swap_in
              then balance_key actor w.asset_out
                ∷ balance_key actor asset
                ∷ balance_key w.to w.asset_out
                ∷ []
              else []))

  -- The asset that a first import makes: nothing supplied yet.
  abbrev pub fresh : WarpTransfer → Bytes → Asset
  fresh w source_chain_id = record {
    symbol = w.symbol;
    decimals = w.decimals;
    metadata = imported_asset_metadata sdk w.asset source_chain_id;
    supply = 0;
    owner = replicate address_len 0;
    warp = true;
  }

  -- `exists && !warp` is a conflict; what does not exist is made.
  unfoldable pub import_into : WarpTransfer → Bytes → Option Asset → M S Output Asset
  unfolding imported_asset_metadata
  import_into w source_chain_id none = pure (fresh w source_chain_id)
  import_into w source_chain_id (some a) =
      if not a.warp then raise Output.output_conflicting_asset else pure a

  unfoldable pub execute_mint : WarpTransfer → Bytes → Bytes → M S Output (Unit {0})
  unfolding import_into imported_asset_id
  execute_mint w source_chain_id actor =
      let asset = imported_asset_id sdk w.asset source_chain_id in
      do
        found ← or_output (gets (get_asset sdk asset))
        a ← import_into w source_chain_id found
        with_value ← or_output (lift (add64 a.supply w.value))
        new_supply ← or_output (lift (add64 with_value w.reward))
        or_output (
            set_asset sdk asset
              (record a { supply = new_supply; owner = replicate address_len 0; warp = true }))
        or_output (add_balance sdk w.to asset w.value true)
        or_output (if ltb 0 w.reward then add_balance sdk actor asset w.reward true else pure tt)

  unfoldable pub known : Output → Option Asset → M S Output Asset
  known missing none = raise missing
  known missing (some a) = pure a

  unfoldable pub execute_return : WarpTransfer → Bytes → Bytes → M S Output (Unit {0})
  unfolding known
  execute_return w source_chain_id actor = do
    found ← or_output (gets (get_asset sdk w.asset))
    a ← known Output.output_asset_missing found
    raise_if (not (bytes_eq w.symbol a.symbol)) Output.output_symbol_incorrect
    raise_if (not (w.decimals == a.decimals)) Output.output_decimals_incorrect
    raise_if a.warp Output.output_warp_asset
    or_output (sub_loan sdk w.asset source_chain_id w.value)
    or_output (add_balance sdk w.to w.asset w.value true)
    or_output (
        if ltb 0 w.reward
        then sub_loan sdk w.asset source_chain_id w.reward
          >> add_balance sdk actor w.asset w.reward true
        else pure tt)

  -- The four transfers of a swap that is filled.
  unfoldable pub execute_swap : ImportAsset → Bytes → M S Error (Unit {0})
  unfolding asset_in
  execute_swap i actor =
      let w = i.warp_transfer in
      do
        sub_balance sdk w.to (asset_in i) w.swap_in
        add_balance sdk actor (asset_in i) w.swap_in true
        sub_balance sdk actor w.asset_out w.swap_out
        add_balance sdk w.to w.asset_out w.swap_out true

  -- The part of Execute behind the import: no swap, a swap that has expired, or one to fill.
  unfoldable pub execute_fill : ℤ → ImportAsset → Bytes → M S Rejection (Unit {0})
  unfolding execute_swap
  execute_fill t i actor =
      if i.warp_transfer.swap_in == 0
      then pure tt
      else (if i.fill
          then or_reject import_asset_compute_units (execute_swap i actor)
          else raise_if (gtb i.warp_transfer.swap_expiry t) (refuse Output.output_must_fill))

  -- `chain_id` and `t` are the rules' chain and the block's time.
  unfoldable pub execute : Bytes → ℤ → Bool → ImportAsset → Bytes → M S Rejection Receipt
  unfolding execute_mint execute_return execute_fill
  execute chain_id t warp_verified i actor =
      let w = i.warp_transfer in
      do
        raise_if (not warp_verified) (refuse Output.output_warp_verification_failed)
        raise_if (not (bytes_eq w.destination_chain_id chain_id))
            (refuse Output.output_invalid_destination)
        raise_if (w.value == 0) (refuse Output.output_value_zero)
        or_fail with_output (
            if w.return
            then execute_return w i.source_chain_id actor
            else execute_mint w i.source_chain_id actor)
        execute_fill t i actor
        pure (receipt import_asset_compute_units)
