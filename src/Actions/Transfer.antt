-- ===== src/Actions/Transfer.antt =====
-- actions/transfer.go
pub mod Effects
use nuklaivm.Prelude.{ℕ, [], ◌∷◌, List, M, pure, raise_if, ◌>>=◌, ◌>>◌, ltb, ◌==◌, length, true}
use nuklaivm.Bytes.{Bytes}
use nuklaivm.Sdk.{Sdk}
use nuklaivm.Storage.Keys.{balance_key}
use nuklaivm.Storage.Balance.{sub_balance, add_balance}
use nuklaivm.Actions.Receipt.{
  Rejection, Receipt, Output, reject, receipt, or_reject, transfer_compute_units,
  create_asset_compute_units,
}

abbrev pub max_memo_size : ℕ
max_memo_size = 256

pub record Transfer : Type 0 where
  pub to : Bytes
  pub asset : Bytes
  pub value : ℕ
  pub memo : Bytes

unfoldable pub state_keys : Transfer → Bytes → List Bytes
state_keys t actor = balance_key actor t.asset ∷ balance_key t.to t.asset ∷ []

abbrev pub max_compute_units : ℕ
max_compute_units = transfer_compute_units

module _ {S : Type 0} (sdk : Sdk S) where
  unfoldable pub execute : Transfer → Bytes → M S Rejection Receipt
  execute t actor = do
    raise_if (t.value == 0) (reject transfer_compute_units Output.output_value_zero)
    raise_if (ltb max_memo_size (length t.memo))
        (reject create_asset_compute_units Output.output_memo_too_large)
    or_reject transfer_compute_units (sub_balance sdk actor t.asset t.value)
    or_reject transfer_compute_units (add_balance sdk t.to t.asset t.value true)
    pure (receipt transfer_compute_units)
