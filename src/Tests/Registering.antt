-- ===== src/Tests/Registering.antt =====
-- A registration of a node, with a toy signature: the first two bytes of what is signed.
use nuklaivm.Prelude.{◌≡◌, refl, some, Result, ok, List, [], ◌∷◌, ◌++◌, replicate, ◌>>=◌, take}
use nuklaivm.Prelude.Dict.{lookup, insert}
use nuklaivm.Bytes.{Bytes, be64, be16, of_be64, bytes_eq}
use nuklaivm.Sdk.{Error}
use nuklaivm.Codec.{takes, check}
use nuklaivm.Storage.Keys.{balance_key, register_validator_stake_key}
use nuklaivm.Storage.Balance.{get_balance_entry, sub_balance, inner_get_balance}
use nuklaivm.Storage.ValidatorStake.{
  ValidatorStake, encode_validator_stake, get_register_validator_stake,
  inner_get_register_validator_stake, set_register_validator_stake,
}
use nuklaivm.Emission.State.{Emission, new_emission}
use nuklaivm.Emission.Staking.{register_validator_stake}
use nuklaivm.Emission.Queries.{get_all_validators, get_staked_validator}
use nuklaivm.Auth.Bls.{Crypto, new_bls_address, actor_of, verify}
use nuklaivm.Auth.Bls
use nuklaivm.Actions.Receipt.{receipt, Receipt, Rejection}
use nuklaivm.Actions.Staking.{StakingConfig, get_staking_config, on_state, on_emission}
use nuklaivm.Actions.Staking.Register.{
  RegisterValidatorStake, ValidatorStakeInfo, read_validator_stake_info,
  unmarshal_validator_stake_info, verify_auth_signature, find_node_key, check_info, pay_stake,
  owned, execute,
}
use nuklaivm.Tests.Store.{Writes, store, pad}
use nuklaivm.Tests.Packer.{reader}
use nuklaivm.Tests.Ledgers.{alice}
use nuklaivm.Tests.Stakes.{node}
use nuklaivm.Tests.Emissions.{Fraction, fractions}

abbrev crypto : Crypto Bytes Bytes
crypto = record {
  public_key_len = 3;
  signature_len = 2;
  public_key_from_bytes = λ b. ok b;
  public_key_to_bytes = λ b. b;
  signature_from_bytes = λ b. ok b;
  signature_to_bytes = λ b. b;
  verifies = λ msg key sig. bytes_eq sig (take 2 msg);
  invalid_signature = Error.foreign 4;
  create_address = λ t id. t ∷ id;
  address_bech32 = λ b. b;
}

abbrev config : StakingConfig
config = get_staking_config (λ n. n) []

abbrev native : Bytes
native = replicate 32 0

abbrev key : Bytes
key = 5 ∷ 6 ∷ 7 ∷ []

abbrev operator : Bytes
operator = 2 ∷ pad 32 key

abbrev info : ValidatorStakeInfo
info = record {
  node_id = node;
  stake_start_block = 10;
  stake_end_block = 40;
  staked_amount = 150;
  delegation_fee_rate = 10;
  reward_address = alice;
}

abbrev registration : RegisterValidatorStake
registration = record {
  stake_info = node ++ (be64 10 ++ (be64 40 ++ (be64 150 ++ (be64 10 ++ alice))));
  auth_signature = key ++ (3 ∷ 3 ∷ []);
}

abbrev current : List (Bytes × Bytes)
current = (replicate 20 9, 1 ∷ []) ∷ (node, key) ∷ []

abbrev rich : Writes
rich = (balance_key operator native, some (be64 500)) ∷ []

abbrev start : Emission Fraction
start = new_emission fractions 1000 100 0 []

abbrev run : Result Rejection Receipt × (Writes × Emission Fraction)
run = execute store reader crypto fractions config current 3 registration operator (rich, start)

-- The node that is registered need not be the one whose key was found.
abbrev of_another_node : RegisterValidatorStake
of_another_node = record {
  stake_info = replicate 20 8 ++ (be64 10 ++ (be64 40 ++ (be64 150 ++ (be64 10 ++ alice))));
  auth_signature = key ++ (8 ∷ 8 ∷ []);
}

another_node_accepted :
    (execute store reader crypto fractions config current 3 of_another_node operator
      (rich, start)).0
    ≡ ok (receipt 5)
unfolding execute verify_auth_signature find_node_key check_info pay_stake owned ◌>>=◌ takes check
    unmarshal_validator_stake_info read_validator_stake_info be64 of_be64 be16 bytes_eq
    get_all_validators get_staked_validator new_bls_address actor_of verify Bls.unmarshal
    get_register_validator_stake inner_get_register_validator_stake register_validator_stake_key
    balance_key lookup insert new_emission register_validator_stake on_state on_emission
    get_staking_config get_balance_entry inner_get_balance sub_balance set_register_validator_stake
    encode_validator_stake
another_node_accepted = refl

abbrev recorded : ValidatorStakeInfo → ValidatorStake
recorded i = record {
  stake_start_block = i.stake_start_block;
  stake_end_block = i.stake_end_block;
  staked_amount = i.staked_amount;
  delegation_fee_rate = i.delegation_fee_rate;
  reward_address = i.reward_address;
  owner_address = operator;
}
