-- ===== src/Controller/StateManager.antt =====
-- controller/state_manager.go: where the chain keeps its own entries, and how fees are paid.
pub mod Fees
pub mod Keys
use nuklaivm.Prelude.{ℕ, Bool, false, Result, ok, err, panic, M, List, [], ◌∷◌, if◌then◌else◌, ltb}
use nuklaivm.Bytes.{Bytes}
use nuklaivm.Sdk.{Sdk, Error}
use nuklaivm.Storage.Keys.{
  height_key, timestamp_key, incoming_warp_key_prefix, outgoing_warp_key_prefix, balance_key,
}
use nuklaivm.Storage.Balance.{get_balance, sub_balance, add_balance}

unfoldable pub manager_height_key : Bytes
unfolding height_key
manager_height_key = height_key

unfoldable pub manager_timestamp_key : Bytes
unfolding timestamp_key
manager_timestamp_key = timestamp_key

-- FeeKey returns storage.HeightKey()
unfoldable pub manager_fee_key : Bytes
unfolding height_key
manager_fee_key = height_key

unfoldable pub manager_incoming_warp_key_prefix : Bytes → Bytes → Bytes
unfolding incoming_warp_key_prefix
manager_incoming_warp_key_prefix source_chain_id msg_id =
    incoming_warp_key_prefix source_chain_id msg_id

unfoldable pub manager_outgoing_warp_key_prefix : Bytes → Bytes
unfolding outgoing_warp_key_prefix
manager_outgoing_warp_key_prefix tx_id = outgoing_warp_key_prefix tx_id

-- `empty_id` is ids.Empty, the native token.
module _ {S : Type 0} (sdk : Sdk S) (empty_id : Bytes) where
  unfoldable pub sponsor_state_keys : Bytes → List Bytes
  sponsor_state_keys addr = balance_key addr empty_id ∷ []

  abbrev covers : ℕ → Result Error ℕ → Result Error (Unit {0})
  covers amount (ok bal) = if ltb bal amount then err Error.invalid_balance else ok tt
  covers amount (err e) = err e
  covers amount panic = panic

  unfoldable pub can_deduct : Bytes → ℕ → S → Result Error (Unit {0})
  can_deduct addr amount s = covers amount (get_balance sdk addr empty_id s)

  unfoldable pub deduct : Bytes → ℕ → M S Error (Unit {0})
  deduct addr amount = sub_balance sdk addr empty_id amount

  unfoldable pub refund : Bytes → ℕ → M S Error (Unit {0})
  refund addr amount = add_balance sdk addr empty_id amount false
