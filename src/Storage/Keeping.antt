-- ===== src/Storage/Keeping.antt =====
-- Every write of the storage layer keeps what does not depend on its key. The rules serve
-- `search` on the actions that are built from these writes.
use nuklaivm.Prelude.{ℕ, Bool, Keeps, keeps_rules}
use nuklaivm.Bytes.{Bytes}
use nuklaivm.Sdk.{Sdk}
use nuklaivm.Storage.Keys.{
  asset_key, register_validator_stake_key, delegate_user_stake_key, balance_key,
}
use nuklaivm.Storage.Writes.{Writes}
use nuklaivm.Storage.Balance.{set_balance}
use nuklaivm.Storage.Balance.Effects.{Keeps-sub_balance, Keeps-add_balance}
use nuklaivm.Storage.Loan.Effects.{Keeps-sub_loan, Keeps-add_loan}
use nuklaivm.Storage.Asset.{Asset, set_asset, delete_asset}
use nuklaivm.Storage.ValidatorStake.{
  ValidatorStake, set_register_validator_stake, delete_register_validator_stake,
}
use nuklaivm.Storage.UserStake.{set_delegate_user_stake, delete_delegate_user_stake}

module _ {S : Type 0} (sdk : Sdk S) {P : S → Type 0} where
  pub Keeps-set_balance :
      (addr asset : Bytes) (n : ℕ)
      → Writes sdk P (balance_key addr asset)
      → Keeps P (set_balance sdk addr asset n)
  unfolding set_balance
  Keeps-set_balance addr asset n w = record { after = (w.inserts _).after }

  pub Keeps-set_asset :
      (id : Bytes) (a : Asset) → Writes sdk P (asset_key id) → Keeps P (set_asset sdk id a)
  unfolding set_asset
  Keeps-set_asset id a w = record { after = (w.inserts _).after }

  pub Keeps-delete_asset :
      (id : Bytes) → Writes sdk P (asset_key id) → Keeps P (delete_asset sdk id)
  unfolding delete_asset
  Keeps-delete_asset id w = record { after = w.removes.after }

  pub Keeps-set_register_validator_stake :
      (node_id : Bytes) (r : ValidatorStake)
      → Writes sdk P (register_validator_stake_key node_id)
      → Keeps P (set_register_validator_stake sdk node_id r)
  unfolding set_register_validator_stake
  Keeps-set_register_validator_stake node_id r w = record { after = (w.inserts _).after }

  pub Keeps-delete_register_validator_stake :
      (node_id : Bytes)
      → Writes sdk P (register_validator_stake_key node_id)
      → Keeps P (delete_register_validator_stake sdk node_id)
  unfolding delete_register_validator_stake
  Keeps-delete_register_validator_stake node_id w = record { after = w.removes.after }

  pub Keeps-set_delegate_user_stake :
      (owner node_id : Bytes) (start end_block amount : ℕ) (reward : Bytes)
      → Writes sdk P (delegate_user_stake_key owner node_id)
      → Keeps P (set_delegate_user_stake sdk owner node_id start end_block amount reward)
  unfolding set_delegate_user_stake
  Keeps-set_delegate_user_stake owner node_id start end_block amount reward w = record {
    after = (w.inserts _).after;
  }

  pub Keeps-delete_delegate_user_stake :
      (owner node_id : Bytes)
      → Writes sdk P (delegate_user_stake_key owner node_id)
      → Keeps P (delete_delegate_user_stake sdk owner node_id)
  unfolding delete_delegate_user_stake
  Keeps-delete_delegate_user_stake owner node_id w = record { after = w.removes.after }

pub ruleset storage_rules = (
  keeps_rules, Keeps-sub_balance, Keeps-add_balance, Keeps-sub_loan, Keeps-add_loan,
  Keeps-set_balance, Keeps-set_asset, Keeps-delete_asset, Keeps-set_register_validator_stake,
  Keeps-delete_register_validator_stake, Keeps-set_delegate_user_stake,
  Keeps-delete_delegate_user_stake,
)
