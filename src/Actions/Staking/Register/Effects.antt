-- ===== src/Actions/Staking/Register/Effects.antt =====
-- What a registration checks, writes and pays.
use nuklaivm.Prelude.{ℕ, ◌-◌, ◌≤◌, ◌≡◌, some, ok, List, ◌⊎◌, [], ◌∷◌, replicate}
use nuklaivm.Bytes.{Bytes}
use nuklaivm.Sdk.{Sdk, IsLawful}
use nuklaivm.Codec.{Reader}
use nuklaivm.Storage.ValidatorStake.{ValidatorStake}
use nuklaivm.Emission.State.{Floats, Validator, Emission}
use nuklaivm.Emission.Queries.{get_all_validators}
use nuklaivm.Auth.Bls.{Crypto, new_bls_address}
use nuklaivm.Actions.Receipt.{Receipt}
use nuklaivm.Actions.Staking.{StakingConfig}
use nuklaivm.Actions.Staking.Register.{
  RegisterValidatorStake, ValidatorStakeInfo, verify_auth_signature, find_node_key,
}

-- A validator of a list.
abbrev pub Listed : {F : Type 0} → Validator F → List (Validator F) → Type 0
Listed v [] = ⊥
Listed v (w ∷ ws) = (v ≡ w) ⊎ Listed v ws

-- What the staking config allows.
pub record Allowed (config : StakingConfig) (height : ℕ) (i : ValidatorStakeInfo) : Type 0 where
  pub at_least : config.min_validator_stake ≤ i.staked_amount
  pub at_most : i.staked_amount ≤ config.max_validator_stake
  pub starts : height ≤ i.stake_start_block
  pub ends : i.stake_start_block ≤ i.stake_end_block
  pub long_enough : config.min_validator_stake_duration ≤ i.stake_end_block - i.stake_start_block
  pub short_enough : i.stake_end_block - i.stake_start_block ≤ config.max_validator_stake_duration
  pub fee_at_least : config.min_delegation_fee ≤ i.delegation_fee_rate
  pub fee_at_most : i.delegation_fee_rate ≤ 100

module _ {S R P K G F : Type 0} (sdk : Sdk S) (reader : Reader R P) (crypto : Crypto K G)
    (fl : Floats F) (config : StakingConfig) where
  open crypto use {address_bech32, public_key_to_bytes, public_key_from_bytes}

  module _ (current : List (Bytes × Bytes)) (height : ℕ) (r : RegisterValidatorStake)
      (actor : Bytes) (s : S) (e : Emission F) where
    abbrev SignedBy : Bytes → Type 0
    SignedBy signer =
        (verify_auth_signature sdk reader crypto r.stake_info r.auth_signature ≡ ok signer)
        × (address_bech32 actor ≡ address_bech32 signer)

    abbrev NodeOfActor : K → Type 0
    NodeOfActor key =
        find_node_key sdk reader crypto (address_bech32 actor)
          (get_all_validators fl (replicate sdk.node_id_len 0) current e)
        ≡ ok (some key)

    -- The key of a validator that GetAllValidators lists, whose address is the actor's.
    abbrev KeyOfValidator : K → Type 0
    KeyOfValidator key =
        (v : Validator F) × Listed v (get_all_validators fl (replicate sdk.node_id_len 0) current e)
        × (public_key_from_bytes v.public_key ≡ ok key)
        × (address_bech32 actor ≡ address_bech32 (new_bls_address sdk crypto key))

    module _ (laws : IsLawful sdk) where
      abbrev native : Bytes
      native = replicate sdk.id_len 0

      abbrev recorded_stake : ValidatorStakeInfo → ValidatorStake
      recorded_stake i = record {
        stake_start_block = i.stake_start_block;
        stake_end_block = i.stake_end_block;
        staked_amount = i.staked_amount;
        delegation_fee_rate = i.delegation_fee_rate;
        reward_address = i.reward_address;
        owner_address = actor;
      }
