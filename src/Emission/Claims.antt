-- ===== src/Emission/Claims.antt =====
-- Rewards and exits of emission/emission.go: calculating, undelegating and claiming.
use nuklaivm.Prelude.{
  ℕ, ◌-◌, ◌/◌, Bool, true, false, not, ◌&&◌, none, some, [], ◌∷◌, zero, suc, Result, ok, err, panic,
  M, if◌then◌else◌, ◌==◌, ltb,
}
use nuklaivm.Prelude.Dict.{Dict, lookup, erase}
use nuklaivm.Prelude.Word.{◌+w◌, ◌-w◌}
use nuklaivm.Bytes.{Bytes, bytes_eq}
use nuklaivm.Sdk.{Error}
use nuklaivm.Emission.State.{Floats, Delegator, Validator, Emission, nat_eq, find_delegator}
use nuklaivm.Emission.Staking.{with_node, put_validator}

module _ {F : Type 0} (fl : Floats F) where
  open fl use {of_uint64, to_uint64, mul, div}

  -- The reward of one epoch, if the validator has an entry for it.
  unfoldable pub epoch_reward : Validator F → Delegator → ℕ → ℕ
  epoch_reward v d epoch = elim (lookup nat_eq epoch v.epoch_rewards) [
    | none ↦ 0
    | some reward ↦ elim (lookup nat_eq epoch v.delegated_amount_per_epoch) [
      | none ↦ 0
      | some delegated ↦
          if ltb 0 delegated
          then to_uint64
              (mul (of_uint64 reward) (div (of_uint64 d.staked_amount) (of_uint64 delegated)))
          else 0
    ]
  ]

  -- The loop over `rounds` epochs from `epoch` on.
  unfoldable pub sum_epochs : Validator F → Delegator → ℕ → ℕ → ℕ → ℕ
  unfolding epoch_reward
  sum_epochs v d zero epoch total = total
  sum_epochs v d (suc rounds) epoch total =
      sum_epochs v d rounds (suc epoch) (total +w epoch_reward v d epoch)

  -- The part of CalculateUserDelegationRewards behind the two lookups: the epochs from the start
  -- block's to the end block's. Epoch numbers stay below 2 ^ 64 / 10, so the loop ends.
  unfoldable pub delegation_rewards : ℕ → Validator F → Delegator → ℕ
  unfolding sum_epochs
  delegation_rewards epoch_length v d =
      let start_epoch = d.stake_start_block / epoch_length in
      let end_epoch = d.stake_end_block / epoch_length in
      sum_epochs v d (suc end_epoch - start_epoch) start_epoch 0

  -- A division by an epoch length of 0 panics.
  abbrev pub rewards_or_panic : ℕ → Validator F → Delegator → Result Error ℕ
  rewards_or_panic epoch_length v d =
      if epoch_length == 0 then panic else ok (delegation_rewards epoch_length v d)

  unfoldable pub calculate_user_delegation_rewards : Bytes → Bytes → M (Emission F) Error ℕ
  calculate_user_delegation_rewards node_id actor = with_node node_id λ ref v e.
      elim (find_delegator v actor) [
        | none ↦ (err Error.delegator_not_found, e)
        | some d ↦ (rewards_or_panic e.epoch_tracker.epoch_length v d, e)
      ]

  -- Rewards are capped by what the validator has left for its delegators.
  abbrev pub capped : ℕ → ℕ → ℕ
  capped limit reward = if ltb limit reward then limit else reward

  abbrev pub is_empty : Dict Bytes Delegator → Bool
  is_empty [] = true
  is_empty (_ ∷ _) = false

  -- The validator goes once it is inactive, has no stake and no delegators.
  abbrev pub drop_if_done : Bytes → Validator F → Emission F → Emission F
  drop_if_done node_id v e =
      if not v.is_active && v.staked_amount == 0 && is_empty v.delegators
      then record e { validators = erase bytes_eq node_id e.validators }
      else e

  unfoldable pub settle : Bytes → ℕ → Validator F → Bytes → ℕ → M (Emission F) Error ℕ
  settle node_id ref v actor reward e =
      let paid = capped v.accumulated_delegated_reward reward in
      let v1 = record v {
        accumulated_delegated_reward = v.accumulated_delegated_reward -w paid;
        delegators = erase bytes_eq actor v.delegators;
      } in
      (ok paid, drop_if_done node_id v1 (put_validator ref v1 e))

  abbrev pub undelegate_at : Bytes → Bytes → ℕ → Validator F → M (Emission F) Error ℕ
  undelegate_at node_id actor ref v e = elim (find_delegator v actor) [
    | none ↦ (err Error.delegator_not_found, e)
    | some d ↦ elim (rewards_or_panic e.epoch_tracker.epoch_length v d) [
      | ok reward ↦ settle node_id ref v actor reward e
      | err x ↦ (err x, e)
      | panic ↦ (panic, e)
    ]
  ]

  unfoldable pub undelegate_user_stake : Bytes → Bytes → M (Emission F) Error ℕ
  unfolding settle
  undelegate_user_stake node_id actor = with_node node_id (undelegate_at node_id actor)

  abbrev pub pay_claim : ℕ → Validator F → Emission F → ℕ → Result Error ℕ × Emission F
  pay_claim ref v e reward = (
    ok reward,
    put_validator ref
        (record v { accumulated_delegated_reward = v.accumulated_delegated_reward -w reward }) e,
  )

  -- `actor == codec.EmptyAddress` is the validator itself.
  abbrev pub claim_at : Bytes → Bytes → ℕ → Validator F → M (Emission F) Error ℕ
  claim_at empty_address actor ref v e =
      if bytes_eq actor empty_address
      then (
        ok v.accumulated_staked_reward,
        put_validator ref (record v { accumulated_staked_reward = 0 }) e,
      )
      else elim (find_delegator v actor) [
        | none ↦ (err Error.delegator_not_found, e)
        | some d ↦ elim (rewards_or_panic e.epoch_tracker.epoch_length v d) [
          | ok reward ↦ pay_claim ref v e reward
          | err x ↦ (err x, e)
          | panic ↦ (panic, e)
        ]
      ]

  unfoldable pub claim_staking_rewards : Bytes → Bytes → Bytes → M (Emission F) Error ℕ
  claim_staking_rewards empty_address node_id actor =
      with_node node_id (claim_at empty_address actor)
