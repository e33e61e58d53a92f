-- ===== src/Actions/Staking.antt =====
-- What the staking actions share. They run on the chain's state and on the emission balancer,
-- which is one object for the whole program: `S × D`. emission/params.go, and the results of
-- actions/withdraw_validator_stake.go, undelegate_user_stake.go and claim_validator_stake_rewards.go.
pub mod Register
pub mod Delegate
pub mod Undelegate
pub mod Withdraw
pub mod ClaimDelegation
pub mod ClaimValidator
pub mod Escrow
use nuklaivm.Prelude.{
  ℕ, ◌+◌, ◌*◌, ◌≡◌, refl, Bool, true, false, Option, none, some, Result, ok, err, panic, M, gets,
  or_fail, ◌>>=◌, replicate,
}
use nuklaivm.Bytes.{Bytes}
use nuklaivm.Sdk.{Sdk, Error}
use nuklaivm.Codec.{Writer, Reader, unless_error, ◌▹◌}
use nuklaivm.Actions.Receipt.{Receipt}

pub record RewardConfig : Type 0 where
  -- in nanoseconds
  pub minting_period : ℕ
  pub supply_cap : ℕ
  -- as text, in bech32
  pub emission_address : Bytes

pub record StakingConfig : Type 0 where
  pub min_validator_stake : ℕ
  pub max_validator_stake : ℕ
  pub min_delegator_stake : ℕ
  pub min_delegation_fee : ℕ
  pub min_validator_stake_duration : ℕ
  pub max_validator_stake_duration : ℕ
  pub reward_config : RewardConfig

-- `parse_balance` is hutils.ParseBalance of so many NAI, at the program's decimals;
-- `emission_address` is the literal in the source.
unfoldable pub get_staking_config : (ℕ → ℕ) → Bytes → StakingConfig
get_staking_config parse_balance emission_address = record {
  min_validator_stake = parse_balance 100;
  max_validator_stake = parse_balance 100000000;
  min_delegator_stake = parse_balance 25;
  min_delegation_fee = 2;
  min_validator_stake_duration = 20;
  max_validator_stake_duration = 20 * 60 * 24 * 364;
  reward_config = record {
    minting_period = 365 * 24 * 3600000000000;
    supply_cap = parse_balance 10000000000;
    emission_address = emission_address;
  };
}

module _ {S D E A : Type 0} where
  -- A call of the storage layer, and one of the emission balancer.
  unfoldable pub on_state : M S E A → M (S × D) E A
  on_state m (s, d) = ((m s).0, ((m s).1, d))

  unfoldable pub on_emission : M D E A → M (S × D) E A
  on_emission m (s, d) = ((m d).0, (s, (m d).1))

-- `exists, …, _ := …`: an error reads as a missing entry.
abbrev pub or_missing : {A : Type 0} → Result Error (Option A) → Result Error (Option A)
or_missing (ok found) = ok found
or_missing (err e) = ok none
or_missing panic = panic

abbrev pub is_missing : {A : Type 0} → Option A → Bool
is_missing none = true
is_missing (some a) = false

-- What is found was there.
pub or_missing_found :
    {A : Type 0} (r : Result Error (Option A)) {a : A}
    → or_missing r ≡ ok (some a)
    → r ≡ ok (some a)
or_missing_found (ok found) h = h
or_missing_found (err e) h = cc
or_missing_found panic h = cc

pub found_there :
    {A : Type 0} (r : Result Error (Option A)) (o : Option A)
    → or_missing r ≡ ok o
    → is_missing o ≡ false
    → (a : A) × (r ≡ ok (some a))
found_there r none h there = cc
found_there r (some a) h there = (a, or_missing_found r h)

-- `return true, units, output, nil, nil`
abbrev pub with_output : ℕ → Bytes → Receipt
with_output units output = record { units = units; output = some output; message = none }

module _ {S : Type 0} (sdk : Sdk S) where
  abbrev or_empty : Result Error Bytes → Bytes
  or_empty (ok b) = b
  or_empty (err e) = replicate sdk.node_id_len 0
  or_empty panic = replicate sdk.node_id_len 0

  -- `nodeID, _ := ids.ToNodeID(…)`
  unfoldable pub node_id_or_empty : Bytes → Bytes
  node_id_or_empty b = or_empty (sdk.to_node_id b)

-- WithdrawStakeResult, UndelegateUserStakeResult
pub record StakeResult : Type 0 where
  pub staked_amount : ℕ
  pub reward_amount : ℕ

pub record ClaimRewardsResult : Type 0 where
  pub reward_amount : ℕ

module _ {W O : Type 0} (writer : Writer W O) where
  open writer use {new_writer, pack_uint64, bytes, writer_err}

  unfoldable pub marshal_stake_result : StakeResult → Result Error Bytes
  marshal_stake_result r =
      let p =
        new_writer (2 * 8) (2 * 8) ▹ pack_uint64 r.staked_amount ▹ pack_uint64 r.reward_amount in
      unless_error (writer_err p) (bytes p)

  unfoldable pub marshal_claim_result : ClaimRewardsResult → Result Error Bytes
  marshal_claim_result r =
      let p = new_writer 8 8 ▹ pack_uint64 r.reward_amount in unless_error (writer_err p) (bytes p)

module _ {R P : Type 0} (reader : Reader R P) where
  open reader use {new_reader, unpack_uint64, reader_err}

  unfoldable pub unmarshal_stake_result : Bytes → Result Error StakeResult
  unmarshal_stake_result b =
      let (staked, r1) = unpack_uint64 true (new_reader b (2 * 8)) in
      let (reward, r2) = unpack_uint64 false r1 in
      unless_error (reader_err r2) (record { staked_amount = staked; reward_amount = reward })

  unfoldable pub unmarshal_claim_result : Bytes → Result Error ClaimRewardsResult
  unmarshal_claim_result b =
      let (reward, r1) = unpack_uint64 false (new_reader b 8) in
      unless_error (reader_err r1) (record { reward_amount = reward })
