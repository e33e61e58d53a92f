-- ===== src/Actions/Staking/ClaimValidator.antt =====
-- actions/claim_validator_stake_rewards.go
use nuklaivm.Prelude.{
  ℕ, true, not, List, [], ◌∷◌, M, pure, gets, lift, raise_if, or_fail, ◌>>=◌, ◌>>◌, ltb, replicate,
}
use nuklaivm.Bytes.{Bytes, bytes_eq}
use nuklaivm.Sdk.{Sdk}
use nuklaivm.Codec.{Writer}
use nuklaivm.Storage.Keys.{balance_key, register_validator_stake_key}
use nuklaivm.Storage.Balance.{add_balance}
use nuklaivm.Storage.ValidatorStake.{get_register_validator_stake}
use nuklaivm.Emission.State.{Floats, Emission}
use nuklaivm.Emission.Claims
use nuklaivm.Actions.Receipt.{
  Rejection, Receipt, Output, reject, require, or_reject, claim_staking_reward_compute_units,
}
use nuklaivm.Actions.Staking.{
  on_state, on_emission, or_missing, node_id_or_empty, marshal_claim_result, with_output,
}

pub record ClaimValidatorStakeRewards : Type 0 where
  pub node_id : Bytes

abbrev pub max_compute_units : ℕ
max_compute_units = claim_staking_reward_compute_units

abbrev refuse : Output → Rejection
refuse = reject claim_staking_reward_compute_units

module _ {S F W O : Type 0} (sdk : Sdk S) (fl : Floats F) (writer : Writer W O) where
  open sdk use {address_len, id_len, node_id_len, to_node_id}

  unfoldable pub state_keys : ClaimValidatorStakeRewards → Bytes → List Bytes
  unfolding node_id_or_empty
  state_keys c actor =
      balance_key actor (replicate id_len 0)
      ∷ register_validator_stake_key (node_id_or_empty sdk c.node_id)
      ∷ []

  unfoldable pub execute :
      ℕ → ClaimValidatorStakeRewards → Bytes → M (S × Emission F) Rejection Receipt
  execute height c actor = do
    node_id ← or_fail (λ _. refuse Output.output_invalid_node_id) (lift (to_node_id c.node_id))
    found ←
        or_reject claim_staking_reward_compute_units
          (gets (λ st. or_missing (get_register_validator_stake sdk node_id st.0)))
    stake ← require (refuse Output.output_stake_missing) found
    raise_if (not (bytes_eq stake.reward_address actor)) (refuse Output.output_unauthorized)
    raise_if (ltb height stake.stake_end_block) (refuse Output.output_stake_not_ended)
    reward ← or_reject claim_staking_reward_compute_units (
        on_emission (
          Claims.claim_staking_rewards fl (replicate address_len 0) node_id
            (replicate address_len 0)))
    or_reject claim_staking_reward_compute_units
        (on_state (add_balance sdk stake.reward_address (replicate id_len 0) reward true))
    output ←
        or_reject claim_staking_reward_compute_units
          (lift (marshal_claim_result writer (record { reward_amount = reward })))
    pure (with_output claim_staking_reward_compute_units output)
