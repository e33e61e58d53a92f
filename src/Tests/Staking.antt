-- ===== src/Tests/Staking.antt =====
-- A registration, a delegation, and its end, at small states.
use nuklaivm.Prelude.{
  ◌≢◌, ℕ, ◌+◌, ◌-◌, ◌≡◌, ◌≤◌, ◌<◌, refl, true, some, none, ok, err, [], ◌∷◌, arith, replicate,
  ◌>>=◌,
}
use nuklaivm.Prelude.Dict.{lookup, insert}
use nuklaivm.Bytes.{Bytes, be64, be16, of_be64, bytes_eq}
use nuklaivm.Bytes.Slices.{slice, slice_from, copy_into}
use nuklaivm.Sdk.{Error}
use nuklaivm.Storage.Keys.{balance_key, register_validator_stake_key, delegate_user_stake_key}
use nuklaivm.Storage.Balance.{
  get_balance, get_balance_entry, sub_balance, add_balance, inner_get_balance,
}
use nuklaivm.Storage.ValidatorStake.{
  ValidatorStake, encode_validator_stake, decode_validator_stake, get_register_validator_stake,
  inner_get_register_validator_stake,
}
use nuklaivm.Storage.UserStake.{
  UserStake, encode_user_stake, decode_user_stake, get_delegate_user_stake,
  inner_get_delegate_user_stake, set_delegate_user_stake, delete_delegate_user_stake,
}
use nuklaivm.Storage.Ledger.{total}
use nuklaivm.Emission.State.{Emission}
use nuklaivm.Emission.Staking.{delegate_user_stake}
use nuklaivm.Emission.Claims.{undelegate_user_stake, delegation_rewards}
use nuklaivm.Actions.Receipt.{Output, require, reject}
use nuklaivm.Actions.Staking.{
  StakingConfig, get_staking_config, on_state, on_emission, marshal_stake_result,
}
use nuklaivm.Actions.Staking.Delegate.{DelegateUserStake}
use nuklaivm.Actions.Staking.Delegate
use nuklaivm.Actions.Staking.Delegate.Effects.{delegate_effects, delegate_unpaid}
use nuklaivm.Actions.Staking.Undelegate.{UndelegateUserStake}
use nuklaivm.Actions.Staking.Undelegate
use nuklaivm.Actions.Staking.Undelegate.Effects.{undelegate_effects}
use nuklaivm.Actions.Staking.Withdraw.{WithdrawValidatorStake}
use nuklaivm.Actions.Staking.Withdraw
use nuklaivm.Actions.Staking.Withdraw.Effects.{withdraw_effects}
use nuklaivm.Actions.Staking.ClaimDelegation.{ClaimDelegationStakeRewards}
use nuklaivm.Actions.Staking.ClaimDelegation
use nuklaivm.Actions.Staking.ClaimDelegation.Effects.{claim_delegation_effects}
use nuklaivm.Emission.Staking.{withdraw_validator_stake}
use nuklaivm.Emission.Claims.{claim_staking_rewards}
use nuklaivm.Actions.Staking.{marshal_claim_result}
use nuklaivm.Storage.ValidatorStake.{delete_register_validator_stake}
use nuklaivm.Actions.Staking.Escrow.{delegate-undelegate}
use nuklaivm.Tests.Store.{Writes, store, store-IsLawful}
use nuklaivm.Tests.Packer.{writer}
use nuklaivm.Tests.Ledgers.{alice, bob, Once-alice, Once-bob}
use nuklaivm.Tests.Stakes.{node, stake}
use nuklaivm.Tests.Emissions.{Fraction, fractions, chain}
use nuklaivm.Tests.Accounts.{is_ok, is_ok_value}

abbrev config : StakingConfig
config = get_staking_config (λ n. n) []

abbrev native : Bytes
native = replicate 32 0

-- The node is staked on, and Bob holds 100.
abbrev ready : Writes
ready =
    (register_validator_stake_key node, some (encode_validator_stake stake))
    ∷ (balance_key bob native, some (be64 100))
    ∷ []

abbrev delegation : DelegateUserStake
delegation = record {
  node_id = node;
  stake_start_block = 10;
  stake_end_block = 20;
  staked_amount = 40;
  reward_address = alice;
}

delegation_accepted :
    is_ok (Delegate.execute store fractions config 5 delegation bob (ready, chain)).0 ≡ true
unfolding Delegate.execute Delegate.pay_stake ◌>>=◌ get_register_validator_stake
    inner_get_register_validator_stake bytes_eq register_validator_stake_key be16
    decode_validator_stake slice slice_from encode_validator_stake be64 of_be64
    get_delegate_user_stake inner_get_delegate_user_stake delegate_user_stake_key balance_key
    get_staking_config on_emission on_state delegate_user_stake copy_into insert lookup
    get_balance_entry inner_get_balance sub_balance set_delegate_user_stake encode_user_stake
delegation_accepted = refl

abbrev too_much : DelegateUserStake
too_much = record delegation { staked_amount = 101 }

node_staked : get_register_validator_stake store node ready ≡ ok (some stake)
unfolding get_register_validator_stake inner_get_register_validator_stake
    register_validator_stake_key decode_validator_stake encode_validator_stake slice slice_from
    copy_into be64 be16 of_be64 bytes_eq
node_staked = refl

bob_fresh : get_delegate_user_stake store bob node ready ≡ ok none
unfolding get_delegate_user_stake inner_get_delegate_user_stake delegate_user_stake_key
    register_validator_stake_key balance_key encode_validator_stake be64 be16 bytes_eq
bob_fresh = refl

bob_listed : (delegate_user_stake node bob 10 20 101 chain).0 ≡ ok tt
unfolding delegate_user_stake insert lookup bytes_eq
bob_listed = refl

bob_holds : get_balance_entry store bob native ready ≡ ok (100, true)
unfolding get_balance_entry inner_get_balance register_validator_stake_key balance_key
    encode_validator_stake be64 be16 of_be64 bytes_eq
bob_holds = refl

delegate_unpaid_example : Delegate.execute store fractions config 5 too_much bob (ready, chain) ≡ (
  err (reject 5 (Output.err_bytes Error.invalid_balance)),
  (ready, (delegate_user_stake node bob 10 20 101 chain).1),
)
unfolding get_staking_config
delegate_unpaid_example =
    delegate_unpaid store fractions config 5 too_much bob ready chain store-IsLawful
      {node_id = node} {v = stake} {b = 100} {p = true} refl node_staked bob_fresh (omega arith)
      (omega arith) (omega arith) bob_listed bob_holds (omega arith)

abbrev staked : Writes × Emission Fraction
staked = (Delegate.execute store fractions config 5 delegation bob (ready, chain)).1

abbrev ending : UndelegateUserStake
ending = record { node_id = node; reward_address = alice }

ending_accepted : is_ok (Undelegate.execute store fractions writer 25 ending bob staked).0 ≡ true
unfolding Undelegate.execute Undelegate.pay_back undelegate_user_stake decode_user_stake add_balance
    delete_delegate_user_stake require marshal_stake_result delegation_rewards Delegate.execute
    Delegate.pay_stake ◌>>=◌ get_register_validator_stake inner_get_register_validator_stake
    bytes_eq register_validator_stake_key be16 decode_validator_stake slice slice_from
    encode_validator_stake be64 of_be64 get_delegate_user_stake inner_get_delegate_user_stake
    delegate_user_stake_key balance_key get_staking_config on_emission on_state delegate_user_stake
    copy_into insert lookup get_balance_entry inner_get_balance sub_balance set_delegate_user_stake
    encode_user_stake
ending_accepted = refl

delegate_effects_example :
    let (s', e') = staked in
    (25 ≤ 40)
    × (5 ≤ 10)
    × (10 < 20)
    × ((b : ℕ) × (get_balance store bob native ready ≡ ok b)
        × (40 ≤ b)
        × (get_balance store bob native s' ≡ ok (b - 40)))
    × ((n : Bytes) × (store.to_node_id node ≡ ok n)
        × ((v : ValidatorStake) × (get_register_validator_stake store n ready ≡ ok (some v)))
        × (get_delegate_user_stake store bob n s'
            ≡ ok (
                some (record {
                  stake_start_block = 10;
                  stake_end_block = 20;
                  staked_amount = 40;
                  reward_address = alice;
                  owner_address = bob;
                })))
        × (delegate_user_stake n bob 10 20 40 chain ≡ (ok tt, e')))
unfolding get_staking_config
delegate_effects_example =
    delegate_effects store fractions config 5 delegation bob ready chain store-IsLawful
      {r = (is_ok_value delegation_accepted).0} (omega arith) (omega arith) (omega arith) refl refl
      (is_ok_value delegation_accepted).1

undelegate_effects_example :
    (n : Bytes) × (k : UserStake) × (reward : ℕ) × (store.to_node_id node ≡ ok n)
    × (get_delegate_user_stake store bob n staked.0 ≡ ok (some k))
    × (k.owner_address ≡ bob)
    × (k.stake_end_block ≤ 25)
    × ((undelegate_user_stake fractions n bob staked.1).0 ≡ ok reward)
    × (get_delegate_user_stake store bob n
          (Undelegate.execute store fractions writer 25 ending bob staked).1.0
        ≡ ok none)
undelegate_effects_example =
    undelegate_effects store fractions writer 25 ending bob staked.0 staked.1 store-IsLawful
      {r = (is_ok_value ending_accepted).0} (is_ok_value ending_accepted).1

delegate-undelegate_example :
    (n : Bytes) × (reward : ℕ) × (store.to_node_id node ≡ ok n)
    × ((undelegate_user_stake fractions n bob staked.1).0 ≡ ok reward)
    × (total store native
          (alice ∷ bob ∷ [])
          (Undelegate.execute store fractions writer 25 ending bob staked).1.0
        ≡ total store native (alice ∷ bob ∷ []) ready + reward)
delegate-undelegate_example =
    delegate-undelegate store store-IsLawful fractions (alice ∷ bob ∷ []) bob refl Once-bob writer
      config 5 25 delegation ending ready chain staked.1 {r1 = (is_ok_value delegation_accepted).0}
      {r2 = (is_ok_value ending_accepted).0} refl (omega arith) (omega arith) (omega arith) refl
      refl Once-alice (is_ok_value delegation_accepted).1 (is_ok_value ending_accepted).1

-- The node's stake has ended, and Alice, who owns it, takes it back.
abbrev withdrawal : WithdrawValidatorStake
withdrawal = record { node_id = node; reward_address = bob }

withdrawal_accepted :
    is_ok (Withdraw.execute store fractions writer 25 withdrawal alice (ready, chain)).0 ≡ true
unfolding Withdraw.execute Withdraw.pay_back withdraw_validator_stake lookup ◌>>=◌ require
    get_register_validator_stake inner_get_register_validator_stake register_validator_stake_key
    decode_validator_stake encode_validator_stake slice slice_from copy_into be64 be16 of_be64
    bytes_eq on_state on_emission add_balance inner_get_balance get_balance_entry balance_key
    delete_register_validator_stake marshal_stake_result
withdrawal_accepted = refl

withdraw_effects_example :
    let s' = (Withdraw.execute store fractions writer 25 withdrawal alice (ready, chain)).1.0 in
    (n : Bytes) × (k : ValidatorStake) × (reward : ℕ) × (store.to_node_id node ≡ ok n)
    × (get_register_validator_stake store n ready ≡ ok (some k))
    × (k.owner_address ≡ alice)
    × (k.stake_end_block ≤ 25)
    × ((withdraw_validator_stake n chain).0 ≡ ok reward)
    × (get_register_validator_stake store n s' ≡ ok none)
    × (total store native (alice ∷ bob ∷ []) s'
        ≡ total store native (alice ∷ bob ∷ []) ready + k.staked_amount + reward)
withdraw_effects_example =
    withdraw_effects store fractions writer 25 withdrawal alice ready chain store-IsLawful
      (alice ∷ bob ∷ []) refl Once-alice refl Once-bob {r = (is_ok_value withdrawal_accepted).0}
      (is_ok_value withdrawal_accepted).1

-- Alice claims what Bob's delegation has earned: the stake names her as its reward address.
abbrev claim : ClaimDelegationStakeRewards
claim = record { node_id = node; user_stake_address = bob }

claim_accepted :
    is_ok (ClaimDelegation.execute store fractions writer 25 claim alice staked).0 ≡ true
unfolding ClaimDelegation.execute claim_staking_rewards decode_user_stake add_balance require
    marshal_claim_result delegation_rewards Delegate.execute Delegate.pay_stake ◌>>=◌
    get_register_validator_stake inner_get_register_validator_stake bytes_eq
    register_validator_stake_key be16 decode_validator_stake slice slice_from encode_validator_stake
    be64 of_be64 get_delegate_user_stake inner_get_delegate_user_stake delegate_user_stake_key
    balance_key get_staking_config on_emission on_state delegate_user_stake copy_into insert lookup
    get_balance_entry inner_get_balance sub_balance set_delegate_user_stake encode_user_stake
claim_accepted = refl

other_key : delegate_user_stake_key bob node ≢ balance_key alice native
unfolding delegate_user_stake_key balance_key
other_key e = cc

claim_delegation_effects_example :
    let s' = (ClaimDelegation.execute store fractions writer 25 claim alice staked).1.0 in
    (n : Bytes) × (k : UserStake) × (reward : ℕ) × (store.to_node_id node ≡ ok n)
    × (get_delegate_user_stake store bob n staked.0 ≡ ok (some k))
    × (k.reward_address ≡ alice)
    × (k.stake_start_block ≤ 25)
    × ((claim_staking_rewards fractions (replicate 33 0) n bob staked.1).0 ≡ ok reward)
    × ((b : ℕ) × (get_balance store alice native staked.0 ≡ ok b)
        × (get_balance store alice native s' ≡ ok (b + reward)))
    × (store.get_value s' (delegate_user_stake_key bob node)
        ≡ store.get_value staked.0 (delegate_user_stake_key bob node))
claim_delegation_effects_example =
    claim_delegation_effects store fractions writer 25 claim alice staked.0 staked.1
      {r = (is_ok_value claim_accepted).0} store-IsLawful (delegate_user_stake_key bob node)
      other_key (is_ok_value claim_accepted).1
