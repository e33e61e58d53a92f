-- ===== src/Actions/Staking/Undelegate.antt =====
-- actions/undelegate_user_stake.go
pub mod Effects
use nuklaivm.Prelude.{
  ℕ, ◌+◌, Bool, true, false, not, ◌||◌, Option, none, some, Result, ok, err, List, [], ◌∷◌, M, pure,
  gets, lift, raise_if, or_fail, ◌>>=◌, ◌>>◌, if◌then◌else◌, ltb, leb, ◌==◌, replicate,
}
use nuklaivm.Bytes.{Bytes, bytes_eq}
use nuklaivm.Sdk.{Sdk, Error}
use nuklaivm.Codec.{Writer, Reader, unless_error, takes, check, ◌▹◌}
use nuklaivm.Storage.Keys.{balance_key, register_validator_stake_key, delegate_user_stake_key}
use nuklaivm.Storage.Balance.{sub_balance, add_balance}
use nuklaivm.Storage.ValidatorStake.{
  ValidatorStake, get_register_validator_stake, set_register_validator_stake,
  delete_register_validator_stake,
}
use nuklaivm.Storage.UserStake.{
  UserStake, get_delegate_user_stake, set_delegate_user_stake, delete_delegate_user_stake,
}
use nuklaivm.Emission.State.{Floats, Validator, Emission}
use nuklaivm.Emission.Claims
use nuklaivm.Actions.Receipt.{
  Rejection, Receipt, Output, reject, require, or_reject, undelegate_user_stake_compute_units,
}
use nuklaivm.Actions.Staking.{
  on_state, on_emission, or_missing, node_id_or_empty, StakeResult, marshal_stake_result,
  with_output,
}

pub record UndelegateUserStake : Type 0 where
  pub node_id : Bytes
  pub reward_address : Bytes

abbrev pub max_compute_units : ℕ
max_compute_units = undelegate_user_stake_compute_units

abbrev refuse : Output → Rejection
refuse = reject undelegate_user_stake_compute_units

module _ {S F W O : Type 0} (sdk : Sdk S) (fl : Floats F) (writer : Writer W O) where
  open sdk use {address_len, id_len, node_id_len, to_node_id}

  unfoldable pub state_keys : UndelegateUserStake → Bytes → List Bytes
  unfolding node_id_or_empty
  state_keys u actor =
      balance_key actor (replicate id_len 0)
      ∷ balance_key u.reward_address (replicate id_len 0)
      ∷ delegate_user_stake_key actor (node_id_or_empty sdk u.node_id)
      ∷ []

  -- The reward, the end of the stake, and the stake back to its owner.
  unfoldable pub pay_back : UndelegateUserStake → Bytes → UserStake → ℕ → M S Error (Unit {0})
  pay_back u node_id stake reward = do
    add_balance sdk u.reward_address (replicate id_len 0) reward true
    delete_delegate_user_stake sdk stake.owner_address node_id
    add_balance sdk stake.owner_address (replicate id_len 0) stake.staked_amount true

  unfoldable pub execute : ℕ → UndelegateUserStake → Bytes → M (S × Emission F) Rejection Receipt
  unfolding pay_back
  execute height u actor = do
    node_id ← or_fail (λ _. refuse Output.output_invalid_node_id) (lift (to_node_id u.node_id))
    found ←
        or_reject undelegate_user_stake_compute_units
          (gets (λ st. or_missing (get_delegate_user_stake sdk actor node_id st.0)))
    stake ← require (refuse Output.output_stake_missing) found
    raise_if (not (bytes_eq stake.owner_address actor)) (refuse Output.output_unauthorized)
    raise_if (ltb height stake.stake_end_block) (refuse Output.output_stake_not_ended)
    reward ←
        or_reject undelegate_user_stake_compute_units
          (on_emission (Claims.undelegate_user_stake fl node_id actor))
    or_reject undelegate_user_stake_compute_units (on_state (pay_back u node_id stake reward))
    output ← or_reject undelegate_user_stake_compute_units (
        lift (
          marshal_stake_result writer
            (record { staked_amount = stake.staked_amount; reward_amount = reward })))
    pure (with_output undelegate_user_stake_compute_units output)
