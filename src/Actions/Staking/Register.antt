-- ===== src/Actions/Staking/Register.antt =====
-- actions/register_validator_stake.go
pub mod Effects
use nuklaivm.Prelude.{
  ℕ, ◌+◌, ◌*◌, ◌-◌, Bool, true, false, not, ◌||◌, Option, none, some, Result, ok, err, panic, List,
  [], ◌∷◌, M, pure, gets, lift, raise_if, or_fail, ◌>>=◌, ◌>>◌, if◌then◌else◌, ltb, leb, ◌==◌,
  length, raise, replicate,
}
use nuklaivm.Bytes.{Bytes, bytes_eq}
use nuklaivm.Sdk.{Sdk, Error}
use nuklaivm.Codec.{Writer, Reader, unless_error, takes, check, ◌▹◌}
use nuklaivm.Storage.Keys.{balance_key, register_validator_stake_key}
use nuklaivm.Storage.Balance.{sub_balance}
use nuklaivm.Storage.ValidatorStake.{
  ValidatorStake, get_register_validator_stake, set_register_validator_stake,
}
use nuklaivm.Emission.State.{Floats, Validator, Emission}
use nuklaivm.Emission.Queries.{get_all_validators}
use nuklaivm.Emission.Staking
use nuklaivm.Auth.Bls.{Crypto, new_bls_address, actor_of, verify}
use nuklaivm.Auth.Bls
use nuklaivm.Actions.Receipt.{
  Rejection, Receipt, Output, reject, receipt, or_reject, register_validator_stake_compute_units,
}
use nuklaivm.Actions.Staking.{
  StakingConfig, is_missing, on_state, on_emission, or_missing, node_id_or_empty,
}

pub record RegisterValidatorStake : Type 0 where
  pub stake_info : Bytes
  pub auth_signature : Bytes

pub record ValidatorStakeInfo : Type 0 where
  pub node_id : Bytes
  pub stake_start_block : ℕ
  pub stake_end_block : ℕ
  pub staked_amount : ℕ
  pub delegation_fee_rate : ℕ
  pub reward_address : Bytes

abbrev pub max_compute_units : ℕ
max_compute_units = register_validator_stake_compute_units

abbrev refuse : Output → Rejection
refuse = reject register_validator_stake_compute_units

module _ {S : Type 0} (sdk : Sdk S) where
  open sdk use {address_len, id_len, node_id_len, to_node_id}

  -- The size of a stake info.
  abbrev info_size : ℕ
  info_size = node_id_len + 4 * 8 + address_len

  module _ {W O : Type 0} (writer : Writer W O) where
    open writer use {new_writer, pack_fixed_bytes, pack_uint64, pack_address, bytes, writer_err}

    unfoldable pub marshal_validator_stake_info : ValidatorStakeInfo → Result Error Bytes
    marshal_validator_stake_info i =
        let p =
          new_writer info_size info_size
          ▹ pack_fixed_bytes i.node_id
          ▹ pack_uint64 i.stake_start_block
          ▹ pack_uint64 i.stake_end_block
          ▹ pack_uint64 i.staked_amount
          ▹ pack_uint64 i.delegation_fee_rate
          ▹ pack_address i.reward_address in
        unless_error (writer_err p) (bytes p)

  module _ {R P : Type 0} (reader : Reader R P) where
    open reader use {new_reader, unpack_fixed_bytes, unpack_uint64, unpack_address, reader_err}

    -- What is read, also when the packer has met an error.
    unfoldable pub read_validator_stake_info : Bytes → ValidatorStakeInfo × R
    read_validator_stake_info b =
        let (node_id, r1) = unpack_fixed_bytes node_id_len (new_reader b info_size) in
        let (start, r2) = unpack_uint64 true r1 in
        let (end_block, r3) = unpack_uint64 true r2 in
        let (amount, r4) = unpack_uint64 true r3 in
        let (rate, r5) = unpack_uint64 true r4 in
        let (reward_address, r6) = unpack_address r5 in
        (
          record {
            node_id = node_id;
            stake_start_block = start;
            stake_end_block = end_block;
            staked_amount = amount;
            delegation_fee_rate = rate;
            reward_address = reward_address;
          },
          r6,
        )

    unfoldable pub unmarshal_validator_stake_info : Bytes → Result Error ValidatorStakeInfo
    unfolding read_validator_stake_info
    unmarshal_validator_stake_info b =
        let (info, r) = read_validator_stake_info b in unless_error (reader_err r) info

    unfoldable pub state_keys : RegisterValidatorStake → Bytes → List Bytes
    unfolding read_validator_stake_info node_id_or_empty
    state_keys r actor =
        balance_key actor (replicate id_len 0)
        ∷ register_validator_stake_key
            (node_id_or_empty sdk (read_validator_stake_info r.stake_info).0.node_id)
        ∷ []

    module _ {K G : Type 0} (crypto : Crypto K G) where
      open crypto use {public_key_from_bytes, public_key_to_bytes, address_bech32}

      -- The signer's address, if the signature is over the content.
      unfoldable pub verify_auth_signature : Bytes → Bytes → Result Error Bytes
      unfolding verify actor_of Bls.unmarshal
      verify_auth_signature content auth_signature =
          ((do
            sig ← Bls.unmarshal sdk crypto reader
            lift (verify sdk crypto sig content)
            pure (actor_of sdk crypto sig))
            (new_reader auth_signature (length auth_signature))).0

      abbrev node_key : Bytes → Result Error K → Result Error (Option K) → Result Error (Option K)
      node_key actor_address (ok key) rest =
          if bytes_eq actor_address (address_bech32 (new_bls_address sdk crypto key))
          then ok (some key)
          else rest
      node_key actor_address (err e) rest = err e
      node_key actor_address panic rest = panic

      -- The loop over the current validators: the key of the first whose address is the actor's.
      unfoldable pub find_node_key :
          {F : Type 0} → Bytes → List (Validator F) → Result Error (Option K)
      unfolding new_bls_address
      find_node_key actor_address [] = ok none
      find_node_key actor_address (v ∷ vs) =
          node_key actor_address (public_key_from_bytes v.public_key)
            (find_node_key actor_address vs)

      module _ {F : Type 0} (fl : Floats F) (config : StakingConfig) where
        -- The checks of the amount, the blocks and the fee, in their order.
        unfoldable pub check_info : ℕ → ValidatorStakeInfo → M (S × Emission F) Rejection (Unit {0})
        check_info height i = do
          raise_if
              (ltb i.staked_amount config.min_validator_stake
                || ltb config.max_validator_stake i.staked_amount)
              (refuse Output.output_validator_staked_amount_invalid)
          raise_if (ltb i.stake_start_block height) (refuse Output.output_invalid_stake_start_block)
          raise_if (ltb i.stake_end_block i.stake_start_block)
              (refuse Output.output_invalid_stake_end_block)
          raise_if
              (ltb (i.stake_end_block - i.stake_start_block) config.min_validator_stake_duration
                || ltb config.max_validator_stake_duration
                    (i.stake_end_block - i.stake_start_block))
              (refuse Output.output_invalid_stake_duration)
          raise_if
              (ltb i.delegation_fee_rate config.min_delegation_fee || ltb 100 i.delegation_fee_rate)
              (refuse Output.output_invalid_delegation_fee_rate)

        -- The two writes behind the call of the emission balancer.
        unfoldable pub pay_stake : ValidatorStakeInfo → Bytes → Bytes → M S Error (Unit {0})
        pay_stake i node_id actor = do
          sub_balance sdk actor (replicate id_len 0) i.staked_amount
          set_register_validator_stake sdk node_id (record {
            stake_start_block = i.stake_start_block;
            stake_end_block = i.stake_end_block;
            staked_amount = i.staked_amount;
            delegation_fee_rate = i.delegation_fee_rate;
            reward_address = i.reward_address;
            owner_address = actor;
          })

        -- The node's key, which the loop has found, or the refusal.
        unfoldable pub owned : Option K → M (S × Emission F) Rejection K
        owned none = raise (refuse Output.output_unauthorized)
        owned (some key) = pure key

        -- `current` is what CurrentValidators answers, `height` the last accepted block's.
        unfoldable pub execute :
            List (Bytes × Bytes)
            → ℕ
            → RegisterValidatorStake
            → Bytes
            → M (S × Emission F) Rejection Receipt
        unfolding verify_auth_signature find_node_key check_info pay_stake
            unmarshal_validator_stake_info owned get_all_validators
        execute current height r actor = do
          signer ←
              or_reject register_validator_stake_compute_units
                (lift (verify_auth_signature r.stake_info r.auth_signature))
          raise_if (not (bytes_eq (address_bech32 actor) (address_bech32 signer)))
              (refuse Output.output_different_signer_than_actor)
          found ← or_reject register_validator_stake_compute_units (
              gets (λ st.
                find_node_key (address_bech32 actor)
                  (get_all_validators fl (replicate node_id_len 0) current st.1)))
          key ← owned found
          i ←
              or_reject register_validator_stake_compute_units
                (lift (unmarshal_validator_stake_info r.stake_info))
          node_id ←
              or_fail (λ _. refuse Output.output_invalid_node_id) (lift (to_node_id i.node_id))
          registered ←
              or_reject register_validator_stake_compute_units
                (gets (λ st. or_missing (get_register_validator_stake sdk node_id st.0)))
          raise_if (not (is_missing registered)) (refuse Output.output_validator_already_registered)
          check_info height i
          or_reject register_validator_stake_compute_units (
              on_emission (
                Staking.register_validator_stake fl node_id (public_key_to_bytes key)
                  i.stake_start_block i.stake_end_block i.staked_amount i.delegation_fee_rate))
          or_reject register_validator_stake_compute_units (on_state (pay_stake i node_id actor))
          pure (receipt register_validator_stake_compute_units)
