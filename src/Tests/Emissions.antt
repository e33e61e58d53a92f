-- ===== src/Tests/Emissions.antt =====
-- The emission balancer at a small state, with fractions in place of floating-point numbers.
use nuklaivm.Prelude.{
  ℕ, ◌+◌, ◌*◌, ◌/◌, ◌%◌, ◌≤◌, ◌^◌, ◌≡◌, ◌≢◌, refl, true, false, none, some, ok, err, [], ◌∷◌, arith,
  replicate, get_elem?,
}
use nuklaivm.Prelude.Dict.{lookup, insert, erase}
use nuklaivm.Prelude.Word.{◌+w◌, ◌-w◌}
use nuklaivm.Bytes.{Bytes, bytes_eq}
use nuklaivm.Sdk.{Error}
use nuklaivm.Emission.State.{Floats, Delegator, Validator, Emission, find_validator, find_delegator}
use nuklaivm.Emission.Objects.{Stands}
use nuklaivm.Emission.Staking.{
  withdraw_validator_stake, delegate_user_stake, register_validator_stake,
}
use nuklaivm.Emission.Claims.{undelegate_user_stake, claim_staking_rewards}
use nuklaivm.Emission.Events.{
  run_activations, run_deactivations, run_delegator_activations, run_delegator_deactivations, each,
  process_events, activate, deactivate,
}
use nuklaivm.Emission.Rewards.{
  get_apr_for_validators, within_cap, distribute_validator_rewards_or_fees, distribute_all,
  distribute_to, validator_amount, credit, add_to_total_supply, distribute_validator_rewards,
  uncapped_rewards, get_rewards_per_epoch, mint_new_nai, distribute_fees,
}
use nuklaivm.Emission.Queries.{get_num_delegators, get_staked_validator}
use nuklaivm.Emission.Exits.{withdraw_once, claim_repeats}
use nuklaivm.Emission.Undelegating.{undelegate_pays, undelegate_once}
use nuklaivm.Emission.Entries.{delegate_lists}
use nuklaivm.Emission.Processed.{process_events_once}
use nuklaivm.Emission.Supply.{add_within_max, epoch_shares, mint_supply_step, fees_halved}
use nuklaivm.Emission.Activation.{activate-deactivate, registered_events}
use nuklaivm.Controller.Accepted.{mint_if_needed, minted_counts_twice}
use nuklaivm.Tests.Ledgers.{alice, bob}
use nuklaivm.Tests.Stakes.{node}

abbrev pub Fraction : Type 0
Fraction = ℕ × ℕ

abbrev pub fractions : Floats Fraction
fractions = record {
  literal = λ n d. (n, d);
  of_uint64 = λ n. (n, 1);
  to_uint64 = λ x. (x.0 / x.1) % 2 ^ 64;
  mul = λ x y. (x.0 * y.0, x.1 * y.1);
  div = λ x y. (x.0 * y.1, x.1 * y.0);
}

abbrev alices : Delegator
alices = record {
  is_active = true;
  staked_amount = 50;
  stake_start_block = 10;
  stake_end_block = 20;
}

abbrev keeper : Validator Fraction
keeper = record {
  is_active = true;
  node_id = node;
  public_key = [];
  staked_amount = 1000000000;
  accumulated_staked_reward = 12;
  delegation_fee_rate = (10, 100);
  delegated_amount = 50;
  accumulated_delegated_reward = 9;
  delegators = (alice, alices) ∷ [];
  epoch_rewards = (1, 6) ∷ [];
  delegated_amount_per_epoch = (1, 50) ∷ [];
  stake_start_block = 10;
  stake_end_block = 20;
}

-- One validator, to which Alice has delegated.
abbrev pub chain : Emission Fraction
chain = record {
  total_supply = 5000;
  max_supply = 100000;
  emission_account = record { address = []; accumulated_reward = 3 };
  heap = keeper ∷ [];
  validators = (node, 0) ∷ [];
  total_staked = 1000000050;
  epoch_tracker = record { base_apr = (25, 100); base_validators = 100; epoch_length = 10 };
  activation_events = [];
  deactivation_events = (20, 0 ∷ []) ∷ [];
  delegator_activation_events = [];
  delegator_deactivation_events =
      (20, record { validator_node_id = node; delegator = alice } ∷ []) ∷ [];
}

keeper-Stands : Stands chain node 0 keeper
unfolding lookup bytes_eq
keeper-Stands = record { entry = refl; object = refl }

alice_listed : find_delegator keeper alice ≡ some alices
unfolding lookup bytes_eq
alice_listed = refl

bob_unlisted : find_delegator keeper bob ≡ none
unfolding lookup bytes_eq
bob_unlisted = refl

nobody : Bytes
nobody = replicate 33 0

alice≢nobody : alice ≢ nobody
unfolding nobody
alice≢nobody e = cc

claim_repeats_example :
    (r : ℕ) × ((claim_staking_rewards fractions nobody node alice chain).0 ≡ ok r)
    × ((claim_staking_rewards fractions nobody node alice
          (claim_staking_rewards fractions nobody node alice chain).1).0
        ≡ ok r)
claim_repeats_example =
    claim_repeats fractions chain node alice 0 keeper alices keeper-Stands alice_listed
      (omega arith) nobody alice≢nobody

undelegate_pays_example :
    (paid : ℕ) × ((undelegate_user_stake fractions node alice chain).0 ≡ ok paid)
    × ((w : Validator Fraction) × (get_elem?
            (undelegate_user_stake fractions node alice chain).1.heap
            0
          ≡ some w)
        × (w.accumulated_delegated_reward + paid ≡ 9)
        × (find_delegator w alice ≡ none))
undelegate_pays_example =
    undelegate_pays fractions chain node alice 0 keeper alices keeper-Stands alice_listed
      (omega arith) (omega arith)

undelegate_once_example :
    (x : Error) × ((undelegate_user_stake fractions node alice
        (undelegate_user_stake fractions node alice chain).1).0
      ≡ err x)
undelegate_once_example =
    undelegate_once fractions chain node alice 0 keeper alices keeper-Stands alice_listed
      (omega arith)

withdraw_once_example :
    ((withdraw_validator_stake node chain).0 ≡ ok 12)
    × ((withdraw_validator_stake node (withdraw_validator_stake node chain).1).0 ≡ ok 0)
withdraw_once_example = withdraw_once chain node 0 keeper keeper-Stands

delegate_lists_example :
    ((delegate_user_stake node bob 10 20 7 chain).0 ≡ ok tt)
    × ((w : Validator Fraction) × Stands (delegate_user_stake node bob 10 20 7 chain).1 node 0 w
        × (find_delegator w bob
            ≡ some (record {
              is_active = false;
              staked_amount = 7;
              stake_start_block = 10;
              stake_end_block = 20;
            })))
delegate_lists_example = delegate_lists chain node bob 0 10 20 7 keeper keeper-Stands bob_unlisted

no_entry : find_validator chain (replicate 20 4) ≡ none
unfolding lookup bytes_eq
no_entry = refl

process_events_once_example : process_events 20 (process_events 20 chain) ≡ process_events 20 chain
process_events_once_example = process_events_once 20 chain

add_within_max_example :
    ((add_to_total_supply 200000 chain).1.total_supply ≤ 100000)
    × ((add_to_total_supply 200000 chain).0 ≡ (add_to_total_supply 200000 chain).1.total_supply)
add_within_max_example = add_within_max 200000 chain (omega arith) (omega arith)

rewards_value : uncapped_rewards fractions chain ≡ 237
unfolding uncapped_rewards get_apr_for_validators
rewards_value = refl

mint_supply_step_example :
    ((mint_new_nai fractions 20 chain).0
      ≡ epoch_shares fractions (process_events 20 chain) % 2 ^ 64)
    × ((mint_new_nai fractions 20 chain).1.total_supply
        ≡ 5000 +w (mint_new_nai fractions 20 chain).0)
mint_supply_step_example =
    mint_supply_step fractions (λ x. omega arith) 20 chain (omega arith) (omega arith)

fees_halved_example :
    ((distribute_fees fractions 20 41 chain).emission_account.accumulated_reward ≡ 3 + 41 / 2)
    × ((distribute_fees fractions 20 41 chain).total_supply ≡ 5000)
fees_halved_example = fees_halved fractions 20 41 chain (omega arith) (omega arith) (omega arith)

abbrev asleep : Emission Fraction
asleep = record chain { heap = record keeper { is_active = false } ∷ [] }

activate-deactivate_example : deactivate 0 (activate 0 asleep) ≡ asleep
activate-deactivate_example =
    activate-deactivate asleep 0 (record keeper { is_active = false }) refl refl (omega arith)

registered_events_example :
    let e1 = (register_validator_stake fractions (replicate 20 4) [] 10 20 1000 5 chain).1 in
    (activate 1 e1 ≡ e1)
    × (e1.total_staked ≡ 1000000050)
    × ((deactivate 1 e1).total_staked ≡ 1000000050 -w 1000)
registered_events_example =
    registered_events fractions chain (replicate 20 4) [] 10 20 1000 5 no_entry (omega arith)

minted_10 : (mint_new_nai fractions 10 chain).0 ≡ 237
unfolding mint_new_nai process_events run_activations run_deactivations run_delegator_activations
    run_delegator_deactivations each get_rewards_per_epoch uncapped_rewards get_apr_for_validators
    within_cap distribute_validator_rewards_or_fees distribute_all distribute_to
    distribute_validator_rewards validator_amount credit lookup insert erase bytes_eq
minted_10 = refl

max_10 : (mint_new_nai fractions 10 chain).1.max_supply ≡ 100000
unfolding mint_new_nai process_events run_activations run_deactivations run_delegator_activations
    run_delegator_deactivations each get_rewards_per_epoch uncapped_rewards get_apr_for_validators
    within_cap distribute_validator_rewards_or_fees distribute_all distribute_to
    distribute_validator_rewards validator_amount credit lookup insert erase bytes_eq
max_10 = refl

minted_counts_twice_example :
    (mint_if_needed fractions 10 chain).total_supply
    ≡ 5000 + 2 * (mint_new_nai fractions 10 chain).0
minted_counts_twice_example =
    minted_counts_twice fractions 10 chain (omega (arith, minted_10, max_10))
      (omega (arith, max_10))

one_delegator : get_num_delegators (replicate 20 0) node chain ≡ 1
unfolding get_num_delegators lookup bytes_eq
one_delegator = refl

one_staked : get_staked_validator (replicate 20 0) (replicate 20 0) chain ≡ keeper ∷ []
unfolding get_staked_validator bytes_eq
one_staked = refl
