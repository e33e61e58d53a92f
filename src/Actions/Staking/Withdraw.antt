-- ===== src/Actions/Staking/Withdraw.antt =====
-- actions/withdraw_validator_stake.go. The two refusals name other outputs than the undelegation's.
pub mod Effects
use nuklaivm.Prelude.{
  ℕ, true, not, List, [], ◌∷◌, M, pure, gets, lift, raise_if, or_fail, ◌>>=◌, ◌>>◌, ltb, replicate,
}
use nuklaivm.Bytes.{Bytes, bytes_eq}
use nuklaivm.Sdk.{Sdk, Error}
use nuklaivm.Codec.{Writer}
use nuklaivm.Storage.Keys.{balance_key, register_validator_stake_key}
use nuklaivm.Storage.Balance.{add_balance}
use nuklaivm.Storage.ValidatorStake.{
  ValidatorStake, get_register_validator_stake, delete_register_validator_stake,
}
use nuklaivm.Emission.State.{Floats, Emission}
use nuklaivm.Emission.Staking
use nuklaivm.Actions.Receipt.{
  Rejection, Receipt, Output, reject, require, or_reject, withdraw_validator_stake_compute_units,
}
use nuklaivm.Actions.Staking.{
  on_state, on_emission, or_missing, node_id_or_empty, marshal_stake_result, with_output,
}

pub record WithdrawValidatorStake : Type 0 where
  pub node_id : Bytes
  pub reward_address : Bytes

abbrev pub max_compute_units : ℕ
max_compute_units = withdraw_validator_stake_compute_units

abbrev refuse : Output → Rejection
refuse = reject withdraw_validator_stake_compute_units

module _ {S F W O : Type 0} (sdk : Sdk S) (fl : Floats F) (writer : Writer W O) where
  open sdk use {address_len, id_len, node_id_len, to_node_id}

  unfoldable pub state_keys : WithdrawValidatorStake → Bytes → List Bytes
  unfolding node_id_or_empty
  state_keys u actor =
      balance_key actor (replicate id_len 0)
      ∷ balance_key u.reward_address (replicate id_len 0)
      ∷ register_validator_stake_key (node_id_or_empty sdk u.node_id)
      ∷ []

  -- The reward, the end of the stake, and the stake back to the actor, who owns it.
  unfoldable pub pay_back :
      WithdrawValidatorStake → Bytes → Bytes → ValidatorStake → ℕ → M S Error (Unit {0})
  pay_back u node_id actor stake reward = do
    add_balance sdk u.reward_address (replicate id_len 0) reward true
    delete_register_validator_stake sdk node_id
    add_balance sdk actor (replicate id_len 0) stake.staked_amount true

  unfoldable pub execute : ℕ → WithdrawValidatorStake → Bytes → M (S × Emission F) Rejection Receipt
  unfolding pay_back
  execute height u actor = do
    node_id ← or_fail (λ _. refuse Output.output_invalid_node_id) (lift (to_node_id u.node_id))
    found ←
        or_reject withdraw_validator_stake_compute_units
          (gets (λ st. or_missing (get_register_validator_stake sdk node_id st.0)))
    stake ← require (refuse Output.output_validator_already_registered) found
    raise_if (not (bytes_eq stake.owner_address actor)) (refuse Output.output_unauthorized)
    raise_if (ltb height stake.stake_end_block) (refuse Output.output_stake_not_started)
    reward ←
        or_reject withdraw_validator_stake_compute_units
          (on_emission (Staking.withdraw_validator_stake node_id))
    or_reject withdraw_validator_stake_compute_units
        (on_state (pay_back u node_id actor stake reward))
    output ← or_reject withdraw_validator_stake_compute_units (
        lift (
          marshal_stake_result writer
            (record { staked_amount = stake.staked_amount; reward_amount = reward })))
    pure (with_output withdraw_validator_stake_compute_units output)
