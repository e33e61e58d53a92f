-- ===== src/Actions/Staking/Delegate.antt =====
-- actions/delegate_user_stake.go
pub mod Effects
use nuklaivm.Prelude.{
  ℕ, ◌+◌, Bool, true, false, not, ◌||◌, Option, none, some, Result, ok, err, List, [], ◌∷◌, M, pure,
  gets, lift, raise_if, or_fail, ◌>>=◌, ◌>>◌, if◌then◌else◌, ltb, leb, ◌==◌, replicate,
}
use nuklaivm.Bytes.{Bytes, bytes_eq}
use nuklaivm.Sdk.{Sdk, Error}
use nuklaivm.Codec.{Writer, Reader, unless_error, takes, check, ◌▹◌}
use nuklaivm.Storage.Keys.{balance_key, register_validator_stake_key, delegate_user_stake_key}
use nuklaivm.Storage.Balance.{sub_balance, add_balance}
use nuklaivm.Storage.ValidatorStake.{
  ValidatorStake, get_register_validator_stake, set_register_validator_stake,
  delete_register_validator_stake,
}
use nuklaivm.Storage.UserStake.{
  UserStake, get_delegate_user_stake, set_delegate_user_stake, delete_delegate_user_stake,
}
use nuklaivm.Emission.State.{Floats, Validator, Emission}
use nuklaivm.Emission.Staking
use nuklaivm.Actions.Receipt.{
  Rejection, Receipt, Output, reject, receipt, or_reject, delegate_user_stake_compute_units,
  register_validator_stake_compute_units,
}
use nuklaivm.Actions.Staking.{
  StakingConfig, is_missing, on_state, on_emission, or_missing, node_id_or_empty,
}

pub record DelegateUserStake : Type 0 where
  pub node_id : Bytes
  pub stake_start_block : ℕ
  pub stake_end_block : ℕ
  pub staked_amount : ℕ
  pub reward_address : Bytes

abbrev pub max_compute_units : ℕ
max_compute_units = delegate_user_stake_compute_units

abbrev refuse : Output → Rejection
refuse = reject delegate_user_stake_compute_units

module _ {S F : Type 0} (sdk : Sdk S) (fl : Floats F) (config : StakingConfig) where
  open sdk use {address_len, id_len, node_id_len, to_node_id}

  unfoldable pub state_keys : DelegateUserStake → Bytes → List Bytes
  unfolding node_id_or_empty
  state_keys d actor =
      let node_id = node_id_or_empty sdk d.node_id in
      balance_key actor (replicate id_len 0)
      ∷ delegate_user_stake_key actor node_id
      ∷ register_validator_stake_key node_id
      ∷ []

  -- The two writes behind the call of the emission balancer.
  unfoldable pub pay_stake : DelegateUserStake → Bytes → Bytes → M S Error (Unit {0})
  pay_stake d node_id actor = do
    sub_balance sdk actor (replicate id_len 0) d.staked_amount
    set_delegate_user_stake sdk actor node_id d.stake_start_block d.stake_end_block d.staked_amount
        d.reward_address

  -- `height` is the last accepted block's.
  unfoldable pub execute : ℕ → DelegateUserStake → Bytes → M (S × Emission F) Rejection Receipt
  unfolding pay_stake
  execute height d actor = do
    node_id ← or_fail (λ _. refuse Output.output_invalid_node_id) (lift (to_node_id d.node_id))
    validator ←
        or_reject delegate_user_stake_compute_units
          (gets (λ st. or_missing (get_register_validator_stake sdk node_id st.0)))
    raise_if (is_missing validator)
        (reject register_validator_stake_compute_units Output.output_validator_not_yet_registered)
    stake ←
        or_reject delegate_user_stake_compute_units
          (gets (λ st. or_missing (get_delegate_user_stake sdk actor node_id st.0)))
    raise_if (not (is_missing stake)) (refuse Output.output_user_already_staked)
    raise_if (ltb d.staked_amount config.min_delegator_stake)
        (refuse Output.output_delegate_staked_amount_invalid)
    raise_if (leb d.stake_end_block d.stake_start_block)
        (refuse Output.output_invalid_stake_end_block)
    raise_if (ltb d.stake_start_block height) (refuse Output.output_invalid_stake_start_block)
    or_reject delegate_user_stake_compute_units (
        on_emission (
          Staking.delegate_user_stake node_id actor d.stake_start_block d.stake_end_block
            d.staked_amount))
    or_reject delegate_user_stake_compute_units (on_state (pay_stake d node_id actor))
    pure (receipt delegate_user_stake_compute_units)
