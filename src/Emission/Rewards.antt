-- ===== src/Emission/Rewards.antt =====
-- Supply, rewards and fees of emission/emission.go.
use nuklaivm.Prelude.{
  ℕ, ◌/◌, ◌%◌, Bool, true, false, not, ◌||◌, none, some, [], ◌∷◌, if◌then◌else◌, ◌==◌, ltb, length,
  get_elem?,
}
use nuklaivm.Prelude.Dict.{Dict, insert}
use nuklaivm.Prelude.Word.{◌+w◌, ◌-w◌}
use nuklaivm.Bytes.{Bytes}
use nuklaivm.Emission.State.{Floats, Validator, Emission, nat_eq}
use nuklaivm.Emission.Staking.{put_validator}
use nuklaivm.Emission.Events.{process_events}

module _ {F : Type 0} where
  -- `if TotalSupply+amount > MaxSupply { amount = MaxSupply - TotalSupply }`
  unfoldable pub within_cap : Emission F → ℕ → ℕ
  within_cap e amount =
      if ltb e.max_supply (e.total_supply +w amount) then e.max_supply -w e.total_supply else amount

  unfoldable pub add_to_total_supply : ℕ → Emission F → ℕ × Emission F
  unfolding within_cap
  add_to_total_supply amount e =
      let total = e.total_supply +w within_cap e amount in
      (total, record e { total_supply = total })

module _ {F : Type 0} (fl : Floats F) where
  open fl use {literal, of_uint64, to_uint64, mul, div}

  -- distributeValidatorRewards: the validator's part and the delegators'.
  unfoldable pub distribute_validator_rewards : ℕ → F → ℕ → ℕ × ℕ
  distribute_validator_rewards total_reward fee_rate delegated =
      let delegation =
        if ltb 0 delegated then to_uint64 (mul (of_uint64 total_reward) fee_rate) else 0 in
      (total_reward -w delegation, delegation)

  -- One validator's share of the amount.
  unfoldable pub validator_amount : F → Validator F → ℕ
  validator_amount per_unit v =
      to_uint64 (mul (of_uint64 (v.staked_amount +w v.delegated_amount)) per_unit)

  -- What one active validator is credited, with the amount distributed so far, this one included.
  unfoldable pub credit : Bool → ℕ → ℕ → ℕ → ℕ → Validator F → Validator F
  credit true epoch reward delegation distributed v = record v {
    accumulated_staked_reward = v.accumulated_staked_reward +w reward;
    epoch_rewards = insert nat_eq epoch delegation v.epoch_rewards;
    delegated_amount_per_epoch =
        insert nat_eq epoch v.delegated_amount v.delegated_amount_per_epoch;
    accumulated_delegated_reward = v.accumulated_delegated_reward +w delegation;
  }
  credit false epoch reward delegation distributed v = record v {
    accumulated_staked_reward = v.accumulated_staked_reward +w reward +w distributed;
  }

  -- One round of the loop, at the object `ref`.
  unfoldable pub distribute_to : Bool → ℕ → F → ℕ → ℕ × Emission F → ℕ × Emission F
  unfolding distribute_validator_rewards validator_amount credit
  distribute_to is_reward epoch per_unit ref (distributed, e) = elim (get_elem? e.heap ref) [
    | none ↦ (distributed, e)
    | some v ↦
        if not v.is_active
        then (distributed, e)
        else let (reward, delegation) =
            distribute_validator_rewards (validator_amount per_unit v) v.delegation_fee_rate
              v.delegated_amount in
          let distributed1 = distributed +w (reward +w delegation) in
          (
            distributed1,
            put_validator ref (credit is_reward epoch reward delegation distributed1 v) e,
          )
  ]

  unfoldable pub distribute_all : Bool → ℕ → F → Dict Bytes ℕ → ℕ × Emission F → ℕ × Emission F
  unfolding distribute_to
  distribute_all is_reward epoch per_unit [] acc = acc
  distribute_all is_reward epoch per_unit ((_, ref) ∷ rest) acc =
      distribute_all is_reward epoch per_unit rest (distribute_to is_reward epoch per_unit ref acc)

  abbrev pub amount_per_stake_unit : ℕ → ℕ → F
  amount_per_stake_unit total_amount staked =
      if ltb 0 staked then div (of_uint64 total_amount) (of_uint64 staked) else literal 0 1

  -- distributeValidatorRewardsOrFees at a block height
  unfoldable pub distribute_validator_rewards_or_fees : ℕ → ℕ → Bool → Emission F → ℕ × Emission F
  unfolding distribute_all
  distribute_validator_rewards_or_fees height total_amount is_reward e =
      distribute_all is_reward (height / e.epoch_tracker.epoch_length)
        (amount_per_stake_unit total_amount e.total_staked) e.validators (0, e)

  unfoldable pub get_apr_for_validators : Emission F → F
  get_apr_for_validators e =
      let n = length e.validators in
      if ltb e.epoch_tracker.base_validators n
      then div e.epoch_tracker.base_apr
          (div (of_uint64 n) (of_uint64 e.epoch_tracker.base_validators))
      else e.epoch_tracker.base_apr

  -- The rewards by APR and stake, before the cap.
  unfoldable pub uncapped_rewards : Emission F → ℕ
  unfolding get_apr_for_validators
  uncapped_rewards e = to_uint64 (
      mul
        (div
          (div
            (div (div (mul (of_uint64 e.total_staked) (get_apr_for_validators e)) (literal 365 1))
              (literal 24 1))
            (literal 60 1))
          (literal 60 1))
        (mul (of_uint64 e.epoch_tracker.epoch_length) (literal 3 1)))

  unfoldable pub get_rewards_per_epoch : Emission F → ℕ
  unfolding uncapped_rewards within_cap
  get_rewards_per_epoch e = within_cap e (uncapped_rewards e)

  -- New sets the epoch length to 10; Go panics at a length of 0.
  unfoldable pub mint_new_nai : ℕ → Emission F → ℕ × Emission F
  unfolding process_events distribute_validator_rewards_or_fees get_rewards_per_epoch
  mint_new_nai height e0 =
      let e = process_events height e0 in
      if height % e.epoch_tracker.epoch_length == 0
      then (let (distributed, e1) =
            distribute_validator_rewards_or_fees height (get_rewards_per_epoch e) true e in
          (distributed, record e1 { total_supply = e1.total_supply +w distributed }))
      else (0, e)

  -- `EmissionAccount.AccumulatedReward += amount`
  abbrev pub credit_account : ℕ → Emission F → Emission F
  credit_account amount e = record e {
    emission_account = record (e.emission_account) {
      accumulated_reward = e.emission_account.accumulated_reward +w amount;
    };
  }

  -- The fee, capped, in two halves: the emission account's and the validators'.
  unfoldable pub share_fees : ℕ → ℕ → Emission F → Emission F
  unfolding distribute_validator_rewards_or_fees
  share_fees height fee e =
      let for_emission = fee / 2 in
      let for_validators = fee -w for_emission in
      let e1 = credit_account for_emission e in
      if e1.total_staked == 0 || for_validators == 0
      then e1
      else (distribute_validator_rewards_or_fees height for_validators false e1).1

  unfoldable pub distribute_fees : ℕ → ℕ → Emission F → Emission F
  unfolding process_events share_fees within_cap
  distribute_fees height fee e0 =
      let e = process_events height e0 in share_fees height (within_cap e fee) e
